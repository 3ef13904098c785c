-- ===== src/Observer/Clock.antt =====
-- What `sampleTime` of 1/observer.c makes of a file as the kernel writes it.
use linux_homework.Base.{
  ℕ, ◌+◌, ◌*◌, ◌/◌, ◌<◌, ◌≡◌, none, some, ◌∷◌, ◌++◌, ◌==◌, if◌then◌else◌, length,
}
use linux_homework.Text.{Text, pos}
use linux_homework.Text.Lines.{IsLine, IsSolid}
use linux_homework.Text.Numbers.{Digits, value}
use linux_homework.Observer.Uptime.{Split, Times, TimeReport, printed}

-- A time in seconds.
abbrev pub Splits : Split → ℕ → Type 0
Splits s t =
    (day hour minute second : ℕ) × (s
      ≡ record { day = pos day; hour = pos hour; minute = pos minute; second = pos second })
    × (86400 * day + 3600 * hour + 60 * minute + second ≡ t)
    × (hour < 24)
    × (minute < 60)
    × (second < 60)

-- A number with a fraction, as text: `ds` behind the first digit `d`.
abbrev pub number : (d : ℕ) → (ds fraction : Text) → Text
number d ds fraction = d ∷ ds ++ 46 ∷ fraction

abbrev line : Text → Text → Text
line v w = v ++ 32 ∷ w

-- The two numbers of /proc/uptime.
module _ (u : ℕ) (us uf : Text) (i : ℕ) (is if' : Text) where
  abbrev pub uptime_line : Text
  uptime_line = line (number u us uf) (number i is if')

  -- What is asked of them: digits, and a line that fits into the buffer.
  abbrev pub Written : Type 0
  Written =
      Digits (u ∷ us)
      × Digits (i ∷ is)
      × IsSolid uf
      × IsSolid if'
      × IsLine uptime_line
      × (length uptime_line < 80)

  -- What is printed of numbers that are the days of an `int`.
  abbrev pub Reported : TimeReport → Type 0
  Reported r =
      (t : Times) × (r ≡ printed t)
      × (t.uptime ≡ pos (value (u ∷ us)))
      × (t.idletime ≡ pos (value (i ∷ is)))
      × Splits t.running (value (u ∷ us))
      × Splits t.idle (value (i ∷ is))
      × (t.ratio
          ≡ (if value (u ∷ us) == 0 then none else some (pos (value (i ∷ is) / value (u ∷ us)))))
