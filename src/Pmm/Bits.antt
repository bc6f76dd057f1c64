-- ===== src/Pmm/Bits.antt =====
-- The bitmap read back after a write: one bit changes and no other.
use style9_os.Base.{
  ℕ, ◌*◌, ◌/◌, ◌%◌, ◌<◌, ◌≡◌, ◌≢◌, Bool, false, List, [], length, get_or, set, ◌∙◌, ap, length-set,
  get_or-set_self, get_or-set_ne, arith, ℕ_discrete,
}
use style9_os.Pmm.{set_bit}

-- the bit that `is_used` reads
abbrev pub bit : List (List Bool) → ℕ → Bool
bit words idx = get_or (get_or words (idx / 64) []) (idx % 64) false

-- every word has 64 bits
abbrev pub IsWords : List (List Bool) → Type 0
IsWords words = (w : ℕ) → w < length words → length (get_or words w []) ≡ 64

pub length-set_bit :
    (words : List (List Bool)) (idx : ℕ) (b : Bool) → length (set_bit words idx b) ≡ length words
unfolding set_bit
length-set_bit words idx b = length-set words _ _

pub set_bit-IsWords :
    (words : List (List Bool)) (idx : ℕ) (b : Bool) → IsWords words → IsWords (set_bit words idx b)
unfolding set_bit
set_bit-IsWords words idx b h w lt = elim (ℕ_discrete (idx / 64) w) [
  | yes e ↦
      rw (e, get_or-set_self words w (set (get_or words w []) (idx % 64) b) [] inside)
        (length-set (get_or words w []) (idx % 64) b ∙ h w inside)
  | no ne ↦ ap length (get_or-set_ne words (idx / 64) w _ [] ne) ∙ h w inside
]
  where
    inside : w < length words
    inside = omega (arith, length-set_bit words idx b)

pub bit-set_bit_self :
    (words : List (List Bool)) (idx : ℕ) (b : Bool)
    → IsWords words
    → idx < 64 * length words
    → bit (set_bit words idx b) idx ≡ b
unfolding set_bit
bit-set_bit_self words idx b h lt =
    rw (get_or-set_self words (idx / 64) (set (get_or words (idx / 64) []) (idx % 64) b) [] inside)
      (get_or-set_self (get_or words (idx / 64) []) (idx % 64) b false
        (omega (arith, h (idx / 64) inside)))
  where
    inside : idx / 64 < length words
    inside = omega arith

pub bit-set_bit_ne :
    (words : List (List Bool)) (idx j : ℕ) (b : Bool)
    → IsWords words
    → idx < 64 * length words
    → idx ≢ j
    → bit (set_bit words idx b) j ≡ bit words j
unfolding set_bit
bit-set_bit_ne words idx j b h lt ne = elim (ℕ_discrete (idx / 64) (j / 64)) [
  | yes e ↦
      rw (← e, get_or-set_self words (idx / 64) _ [] inside)
        (get_or-set_ne (get_or words (idx / 64) []) (idx % 64) (j % 64) b false (omega arith))
  | no w ↦ rw (get_or-set_ne words (idx / 64) (j / 64) _ [] w)
]
  where
    inside : idx / 64 < length words
    inside = omega arith
