-- ===== src/Netfilter/Names.antt =====
-- src/netfilter.rs, `pad_interface_name`.

use rustyrouter.Prelude.{ℕ, zero, suc, List, [], ◌∷◌, All, ◌≡◌, ◌≢◌, ◌≤◌, length, refl, arith}

-- The first n bytes of an array of zeros, over which a name is copied.
unfoldable pub pad_to : ℕ → List ℕ → List ℕ
pad_to zero name = []
pad_to (suc n) [] = 0 ∷ pad_to n []
pad_to (suc n) (c ∷ name) = c ∷ pad_to n name

unfoldable pub pad_interface_name : List ℕ → List ℕ
unfolding pad_to
pad_interface_name name = pad_to 16 name

pad_to-inj :
    (n : ℕ) (a b : List ℕ)
    → length a ≤ n
    → length b ≤ n
    → All (λ c. c ≢ 0) a
    → All (λ c. c ≢ 0) b
    → pad_to n a ≡ pad_to n b
    → a ≡ b
unfolding pad_to
pad_to-inj n [] [] la lb ha hb e = refl
pad_to-inj zero (x ∷ a) b la lb ha hb e = absurd (omega arith)
pad_to-inj zero [] (y ∷ b) la lb ha hb e = absurd (omega arith)
pad_to-inj (suc n) [] (y ∷ b) la lb ha hb e = absurd (ground (arith, hb.0))
pad_to-inj (suc n) (x ∷ a) [] la lb ha hb e = absurd (ground (arith, ha.0))
pad_to-inj (suc n) (x ∷ a) (y ∷ b) la lb ha hb e =
    let rest = pad_to-inj n a b (omega arith) (omega arith) ha.1 hb.1 (ground arith) in ground arith

-- Two names of 16 bytes at most, without zero bytes, that are padded to the same array are the same.
pub pad_interface_name-inj :
    (a b : List ℕ)
    → length a ≤ 16
    → length b ≤ 16
    → All (λ c. c ≢ 0) a
    → All (λ c. c ≢ 0) b
    → pad_interface_name a ≡ pad_interface_name b
    → a ≡ b
unfolding pad_interface_name
pad_interface_name-inj a b la lb ha hb e = pad_to-inj 16 a b la lb ha hb e
