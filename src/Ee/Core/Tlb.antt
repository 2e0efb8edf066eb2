-- ===== src/Ee/Core/Tlb.antt =====
-- liborbum/src/Resources/Ee/Core: EeCoreTlb and EeCoreTlbEntry.hpp. The array of 48 entries is a function of
-- the index: the loops use indices below 48, and the instructions a field of 6 digits, of which those from
-- 48 on are outside the array.
pub mod Laws
use orbum.Base.{
  ℕ, zero, suc, ◌+◌, ◌-◌, ◌^◌, Bool, true, false, Option, none, some, ◌==◌, ◌&&◌, ◌||◌,
  if◌then◌else◌, bit_and, bit_or, not32, u32, ◌<<<◌, ◌>>>◌,
}

pub record Mask : Type 0 where
  pub pagemask : ℕ
  pub evenodd_mask : ℕ
  pub tlb_mask : ℕ

-- `pagemask & 0xFFF` and the digit that tells the even page from the odd one
evenodd_digit : ℕ → Option ℕ
evenodd_digit m =
    if m == 0x0
    then some 12
    else if m == 0x3
    then some 14
    else if m == 0xF
    then some 16
    else if m == 0x3F
    then some 18
    else if m == 0xFF
    then some 20
    else if m == 0x3FF
    then some 22
    else if m == 0xFFF
    then some 24
    else none

-- the constructor; `none` is the exception on a mask that is not one of a page size
unfoldable pub mask : ℕ → Option Mask
unfolding evenodd_digit
mask pagemask = elim (evenodd_digit (bit_and pagemask 0xFFF)) [
  | none ↦ none
  | some digit ↦ some (record {
    pagemask = pagemask;
    evenodd_mask = 1 <<< digit;
    tlb_mask = bit_or 0xFE000000 (bit_and (not32 pagemask) 0xFFF <<< 13);
  })
]

pub record PhysicalInfo : Type 0 where
  pub pfn : ℕ
  pub c : Bool
  pub d : Bool
  pub v : Bool

-- `physical_info[0]` and `physical_info[1]`
pub record EeCoreTlbEntry : Type 0 where
  pub mask : Mask
  pub vpn2 : ℕ
  pub g : Bool
  pub asid : ℕ
  pub s : Bool
  pub even : PhysicalInfo
  pub odd : PhysicalInfo

abbrev pub EeCoreTlb : Type 0
EeCoreTlb = ℕ → EeCoreTlbEntry

unfoldable pub set_tlb_entry_at : EeCoreTlb → EeCoreTlbEntry → ℕ → EeCoreTlb
set_tlb_entry_at tlb entry index j = if j == index then entry else tlb j

unfoldable pub is_match : EeCoreTlb → ℕ → ℕ → Bool
is_match tlb vaddress index =
    let entry = tlb index in
    (entry.s && ((vaddress >>> 14) == (entry.vpn2 >>> 1)))
    || ((bit_and vaddress entry.mask.tlb_mask >>> 13) == entry.vpn2)

-- a loop over `n` entries from `i` on
unfoldable pub search_from : EeCoreTlb → ℕ → ℕ → ℕ → Option ℕ
unfolding is_match
search_from tlb vaddress i zero = none
search_from tlb vaddress i (suc n) =
    if is_match tlb vaddress i then some i else search_from tlb vaddress (i + 1) n

abbrev or_else : Option ℕ → Option ℕ → Option ℕ
or_else none other = other
or_else (some i) other = some i

-- Entry 0, then 13 to 30, 1 to 12, 31 to 37 and 38 to 46; `none` is -1.
unfoldable pub find_tlb_entry_index : EeCoreTlb → ℕ → Option ℕ
unfolding search_from
find_tlb_entry_index tlb va = or_else (search_from tlb va 0 1) (
    or_else (search_from tlb va 13 18) (
      or_else (search_from tlb va 1 12)
        (or_else (search_from tlb va 31 7) (search_from tlb va 38 9))))

abbrev pub generate_new_tlb_index : ℕ
generate_new_tlb_index = 47
