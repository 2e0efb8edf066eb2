-- ===== src/Common/Qword.antt =====
-- liborbum/src/Common/Types/Register/SizedQwordRegister.hpp. The union of bytes, halfwords, words and
-- dwords is the 128-bit number, read in the little-endian order of the hosts that the program is built
-- for. An access of any size is an access of a lane of `w` digits; every offset in the code is in range.
pub mod Laws
use orbum.Base.{ℕ, zero, suc, ◌+◌, ◌*◌, ◌/◌, ◌%◌, ◌^◌, Bool, List, [], ◌∷◌, if◌then◌else◌}

pub record SizedQwordRegister : Type 0 where
  pub q : ℕ
  pub initial_value : ℕ
  pub read_only : Bool

-- the constructor, with its arguments
abbrev pub sized_qword : ℕ → Bool → SizedQwordRegister
sized_qword v ro = record { q = v; initial_value = v; read_only = ro }

unfoldable initialize_qword : SizedQwordRegister → SizedQwordRegister
initialize_qword r = record r { q = r.initial_value }

-- the element of the union's array of `w`-digit numbers, and a store to it
unfoldable pub lane : ℕ → ℕ → ℕ → ℕ
lane w zero q = q % 2 ^ w
lane w (suc i) q = lane w i (q / 2 ^ w)

unfoldable pub put_lane : ℕ → ℕ → ℕ → ℕ → ℕ
put_lane w zero v q = q / 2 ^ w * 2 ^ w + v % 2 ^ w
put_lane w (suc i) v q = put_lane w i v (q / 2 ^ w) * 2 ^ w + q % 2 ^ w

-- `read_ubyte`, `read_uhword`, `read_uword` and `read_udword`, by the number of digits
abbrev pub read_lane : ℕ → SizedQwordRegister → ℕ → ℕ
read_lane w r i = lane w i r.q

-- `write_ubyte`, `write_uhword`, `write_uword` and `write_udword`
unfoldable pub write_lane : ℕ → SizedQwordRegister → ℕ → ℕ → SizedQwordRegister
unfolding put_lane
write_lane w r i value = if r.read_only then r else record r { q = put_lane w i value r.q }

unfoldable pub write_uqword : SizedQwordRegister → ℕ → SizedQwordRegister
write_uqword r value = if r.read_only then r else record r { q = value % 2 ^ 128 }
