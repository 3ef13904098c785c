-- ===== src/Fibnocci/Tests.antt =====
-- Runs of `fib` of 3/fibnocci.c, and its theorem at 10.
use linux_homework.Base.{◌≡◌, none, some, refl}
use linux_homework.Fibnocci.{fib, fib_from, fibonacci, int_or_none, fib-fibonacci}

fib-fibonacci_example : (fib 0 ≡ some 0) × (fib 1 ≡ some 0) × (fib 10 ≡ int_or_none (fibonacci 9).0)
fib-fibonacci_example = fib-fibonacci 8

largest_run : fib 47 ≡ some 1836311903
unfolding fib fib_from
largest_run = refl

overflow_run : fib 48 ≡ none
unfolding fib fib_from
overflow_run = refl
