-- ===== src/Pipe/Contents.antt =====
-- The bytes that a pipe device of scull_pipe.c stores, oldest first, and what the locked parts of
-- `scull_p_read` and `scull_p_write` do to them.
use linux_homework.Base.{
  true, false, take-append-drop, ℕ, ◌+◌, ◌-◌, ◌≤◌, ◌<◌, ◌≡◌, ◌≢◌, refl, sym, ap, ap₂, ◌∙◌, none,
  some, List, [], ◌++◌, append-nil, append_assoc, arith, leb, ◌==◌, if◌then◌else◌, length, take,
  drop, length-append, length-take, length-drop, take_split, drop-drop, drop-take, take_all,
  drop_all, leb→le, le→leb, ==_iff, take-append_ge, drop-append_le, drop-append_ge, take-append_le,
  Bool-cases, inl, inr,
}
use linux_homework.Pipe.{Pipe}

-- The bytes between offset `r` and offset `w`, round the end of the buffer if `w` is before `r`.
unfoldable pub between : List ℕ → ℕ → ℕ → List ℕ
between b r w = if leb r w then take (w - r) (drop r b) else drop r b ++ take w b

unfoldable pub contents : Pipe → List ℕ
unfolding between
contents p = elim p.buffer [ none ↦ [] | some b ↦ between b p.rp p.wp ]

-- A read of `n` bytes in one run takes them off the front.
pub between-read :
    (b : List ℕ) (r w n : ℕ)
    → r < length b
    → w < length b
    → r ≢ w
    → (r < w → r + n ≤ w)
    → r + n ≤ length b
    → take n (drop r b) ++ between b (if r + n == length b then 0 else r + n) w ≡ between b r w
unfolding between
between-read b r w n hr hw ne run fit = elim (Bool-cases (leb r w)) [
  | inl le ↦
      let inside : (r + n == length b) ≡ false = ground (arith, run (ground arith)) in
      let still : leb (r + n) w ≡ true = ground (arith, run (ground arith)) in
      rw (le, inside, still)
        (ap (λ l. take n (drop r b) ++ take (w - (r + n)) l) (sym (drop-drop r n (r + n) b refl))
          ∙ take_split n (w - (r + n)) (w - r) (drop r b) (ground (arith, run (ground arith))))
  | inr gt ↦ elim (Bool-cases (r + n == length b)) [
    | inl all ↦
        rw (gt, all, le→leb 0 w (omega arith))
          (ap₂ ◌++◌ (take_all n (drop r b) (ground (arith, length-drop r b)))
            (ap (λ k. take k b) (omega arith)))
    | inr part ↦
        let still : leb (r + n) w ≡ false = ground arith in
        rw (gt, part, still)
          (sym (append_assoc (take n (drop r b)) (drop (r + n) b) (take w b))
            ∙ ap (λ l. l ++ take w b)
                (ap (λ l. take n (drop r b) ++ l) (sym (drop-drop r n (r + n) b refl))
                  ∙ take-append-drop n (drop r b)))
  ]
]

-- The buffer with `ys` written at `w`.
abbrev pub spliced : List ℕ → ℕ → List ℕ → List ℕ
spliced b w ys = take w b ++ (ys ++ drop (w + length ys) b)

module _ (b : List ℕ) (w : ℕ) (ys : List ℕ) (fit : w + length ys ≤ length b) where
  pub length-spliced : length (spliced b w ys) ≡ length b
  length-spliced = omega (
    arith,
    length-append (take w b) (ys ++ drop (w + length ys) b),
    length-append ys (drop (w + length ys) b),
    length-take w b,
    length-drop (w + length ys) b,
  )

  take-spliced : take (w + length ys) (spliced b w ys) ≡ take w b ++ ys
  take-spliced =
      take-append_ge (w + length ys) (length ys) (take w b) (ys ++ drop (w + length ys) b)
        (omega (arith, length-take w b))
      ∙ ap (λ l. take w b ++ l)
          (take-append_le (length ys) ys (drop (w + length ys) b) (omega arith)
            ∙ take_all (length ys) ys (omega arith))

  -- The bytes from `r` on, for `r` before the written ones and for `r` behind them.
  drop-spliced_low :
      (r : ℕ)
      → r ≤ w
      → drop r (spliced b w ys) ≡ take (w - r) (drop r b) ++ (ys ++ drop (w + length ys) b)
  drop-spliced_low r h =
      drop-append_le r (take w b) (ys ++ drop (w + length ys) b) (omega (arith, length-take w b))
      ∙ ap (λ l. l ++ (ys ++ drop (w + length ys) b)) (drop-take r (w - r) w b (omega arith))

  drop-spliced_high : (r : ℕ) → w + length ys ≤ r → drop r (spliced b w ys) ≡ drop r b
  drop-spliced_high r h =
      drop-append_ge r (r - w) (take w b) (ys ++ drop (w + length ys) b)
        (omega (arith, length-take w b))
      ∙ drop-append_ge (r - w) (r - w - length ys) ys (drop (w + length ys) b) (omega arith)
      ∙ drop-drop (w + length ys) (r - w - length ys) r b (omega arith)

  -- A write in one run that leaves a byte free adds `ys` at the back.
  between-write_run :
      (r : ℕ) → r ≤ w → between (spliced b w ys) r (w + length ys) ≡ between b r w ++ ys
  unfolding between
  between-write_run r le =
      rw (le→leb r (w + length ys) (omega arith), le→leb r w le, drop-spliced_low r le)
        (take-append_ge (w + length ys - r) (length ys) (take (w - r) (drop r b))
            (ys ++ drop (w + length ys) b)
            (omega (arith, length-take (w - r) (drop r b), length-drop r b))
          ∙ ap (λ l. take (w - r) (drop r b) ++ l)
              (take-append_le (length ys) ys (drop (w + length ys) b) (omega arith)
                ∙ take_all (length ys) ys (omega arith)))

  between-write_end :
      (r : ℕ)
      → r ≤ w
      → 0 < r
      → w + length ys ≡ length b
      → between (spliced b w ys) r 0 ≡ between b r w ++ ys
  unfolding between
  between-write_end r le pos full =
      let below : leb r 0 ≡ false = ground arith in
      rw (below, le→leb r w le)
        (append-nil (drop r (spliced b w ys))
          ∙ drop-spliced_low r le
          ∙ ap (λ l. take (w - r) (drop r b) ++ l)
              (ap (λ l. ys ++ l) (drop_all (w + length ys) b (omega arith)) ∙ append-nil ys))

  between-write_wrapped :
      (r : ℕ) → w + length ys < r → between (spliced b w ys) r (w + length ys) ≡ between b r w ++ ys
  unfolding between
  between-write_wrapped r gt =
      let low : leb r w ≡ false = ground arith in
      let high : leb r (w + length ys) ≡ false = ground arith in
      rw (low, high)
        (ap₂ ◌++◌ (drop-spliced_high r (omega arith)) take-spliced
          ∙ sym (append_assoc (drop r b) (take w b) ys))

  -- What is written in the free part is not seen while the write pointer stays.
  pub between-spliced :
      (r : ℕ) → (w < r → w + length ys < r) → between (spliced b w ys) r w ≡ between b r w
  unfolding between
  between-spliced r gap = elim (Bool-cases (leb r w)) [
    | inl le ↦
        rw (le, drop-spliced_low r (leb→le r w le))
          (take-append_le (w - r) (take (w - r) (drop r b)) (ys ++ drop (w + length ys) b)
              (ground (arith, length-take (w - r) (drop r b), length-drop r b))
            ∙ take_all (w - r) (take (w - r) (drop r b))
                (ground (arith, length-take (w - r) (drop r b))))
    | inr gt ↦ rw gt (
        ap₂ ◌++◌ (drop-spliced_high r (ground (arith, gap (ground arith)))) (
          take-append_le w (take w b) (ys ++ drop (w + length ys) b)
            (omega (arith, length-take w b))
          ∙ take_all w (take w b) (omega (arith, length-take w b))))
  ]

  pub between-write :
      (r : ℕ)
      → r < length b
      → w < length b
      → (r ≤ w → length ys + (w - r) + 1 ≤ length b)
      → (w < r → w + length ys < r)
      → between (spliced b w ys) r (if w + length ys == length b then 0 else w + length ys)
        ≡ between b r w ++ ys
  between-write r hr hw room gap = elim (Bool-cases (leb r w)) [
    | inl le ↦ elim (Bool-cases (w + length ys == length b)) [
      | inl full ↦ rw full (
          between-write_end r (leb→le r w le) (ground (arith, room (leb→le r w le)))
            ((==_iff _ _).0 full))
      | inr part ↦ rw part (between-write_run r (leb→le r w le))
    ]
    | inr gt ↦
        let before : w < r = ground arith in
        let part : (w + length ys == length b) ≡ false = ground (arith, gap before) in
        rw part (between-write_wrapped r (gap before))
  ]
