-- ===== src/Ee/Core/Parallel/Arithmetic.antt =====
-- The parallel instructions of
-- liborbum/src/Controller/Ee/Core/Interpreter/CEeCoreInterpreter_INTEGER_ADD_SUB.cpp. The intermediate
-- values are wide enough for the sums and differences; the store cuts to the element.
use orbum.Base.{ℕ, ◌+◌, ◌-◌, ◌^◌, ltb, if◌then◌else◌}
use orbum.Base.Int.{ℤ, pos, negsuc, ◌+ℤ◌, ◌-ℤ◌, ltb_ℤ, signed8, signed16, signed32, to_u32}
use orbum.Ee.Core.State.{EeCoreR5900}
use orbum.Ee.Core.Parallel.{parallel}

-- the two tests against VALUE_S..._MAX and VALUE_S..._MIN, and the conversion of the result
unfoldable pub saturated : ℕ → ℤ → ℕ
saturated w value =
    if ltb_ℤ (pos (2 ^ (w - 1) - 1)) value
    then 2 ^ (w - 1) - 1
    else if ltb_ℤ value (negsuc (2 ^ (w - 1) - 1))
    then to_u32 (negsuc (2 ^ (w - 1) - 1))
    else to_u32 value

unfoldable pub paddb : ℕ → EeCoreR5900 → EeCoreR5900
unfolding parallel
paddb = parallel 8 16 (λ i x y. x + y)

unfoldable pub paddh : ℕ → EeCoreR5900 → EeCoreR5900
unfolding parallel
paddh = parallel 16 8 (λ i x y. x + y)

unfoldable pub paddw : ℕ → EeCoreR5900 → EeCoreR5900
unfolding parallel
paddw = parallel 32 4 (λ i x y. x + y)

unfoldable pub paddsb : ℕ → EeCoreR5900 → EeCoreR5900
unfolding parallel saturated
paddsb = parallel 8 16 (λ i x y. saturated 8 (signed8 x +ℤ signed8 y))

unfoldable pub paddsh : ℕ → EeCoreR5900 → EeCoreR5900
unfolding parallel saturated
paddsh = parallel 16 8 (λ i x y. saturated 16 (signed16 x +ℤ signed16 y))

unfoldable pub paddsw : ℕ → EeCoreR5900 → EeCoreR5900
unfolding parallel saturated
paddsw = parallel 32 4 (λ i x y. saturated 32 (signed32 x +ℤ signed32 y))

unfoldable pub paddub : ℕ → EeCoreR5900 → EeCoreR5900
unfolding parallel
paddub = parallel 8 16 (λ i x y. if ltb (2 ^ 8 - 1) (x + y) then 2 ^ 8 - 1 else x + y)

unfoldable pub padduh : ℕ → EeCoreR5900 → EeCoreR5900
unfolding parallel
padduh = parallel 16 8 (λ i x y. if ltb (2 ^ 16 - 1) (x + y) then 2 ^ 16 - 1 else x + y)

unfoldable pub padduw : ℕ → EeCoreR5900 → EeCoreR5900
unfolding parallel
padduw = parallel 32 4 (λ i x y. if ltb (2 ^ 32 - 1) (x + y) then 2 ^ 32 - 1 else x + y)

unfoldable pub padsbh : ℕ → EeCoreR5900 → EeCoreR5900
unfolding parallel
padsbh = parallel 16 8 (λ i x y. if ltb i 4 then x + 2 ^ 16 - y else x + y)

unfoldable pub psubb : ℕ → EeCoreR5900 → EeCoreR5900
unfolding parallel
psubb = parallel 8 16 (λ i x y. x + 2 ^ 8 - y)

unfoldable pub psubh : ℕ → EeCoreR5900 → EeCoreR5900
unfolding parallel
psubh = parallel 16 8 (λ i x y. x + 2 ^ 16 - y)

unfoldable pub psubw : ℕ → EeCoreR5900 → EeCoreR5900
unfolding parallel
psubw = parallel 32 4 (λ i x y. x + 2 ^ 32 - y)

unfoldable pub psubsb : ℕ → EeCoreR5900 → EeCoreR5900
unfolding parallel saturated
psubsb = parallel 8 16 (λ i x y. saturated 8 (signed8 x -ℤ signed8 y))

unfoldable pub psubsh : ℕ → EeCoreR5900 → EeCoreR5900
unfolding parallel saturated
psubsh = parallel 16 8 (λ i x y. saturated 16 (signed16 x -ℤ signed16 y))

unfoldable pub psubsw : ℕ → EeCoreR5900 → EeCoreR5900
unfolding parallel saturated
psubsw = parallel 32 4 (λ i x y. saturated 32 (signed32 x -ℤ signed32 y))

unfoldable pub psubub : ℕ → EeCoreR5900 → EeCoreR5900
unfolding parallel
psubub = parallel 8 16 (λ i x y. if ltb x y then 0 else x - y)

unfoldable pub psubuh : ℕ → EeCoreR5900 → EeCoreR5900
unfolding parallel
psubuh = parallel 16 8 (λ i x y. if ltb x y then 0 else x - y)

unfoldable pub psubuw : ℕ → EeCoreR5900 → EeCoreR5900
unfolding parallel
psubuw = parallel 32 4 (λ i x y. if ltb x y then 0 else x - y)
