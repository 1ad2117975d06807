-- ===== src/Netfilter/Compare.antt =====
-- src/netfilter.rs: what its comparisons come to on what the kernel loads.
use rustyrouter.Dns.Cache.{bytes_eq}
use rustyrouter.Netfilter.Kernel.{IsName, CtState, zeros, name_register, state_register, masked}
use rustyrouter.Netfilter.Names.{pad_to, pad_interface_name, pad_interface_name-inj}
use rustyrouter.Netfilter.Rules.{Rustables, state_mask, to_le_bytes, port_bytes, zero_bytes}
use rustyrouter.Prelude.{
  ℕ, zero, suc, List, [], ◌∷◌, ◌++◌, Bool, true, false, ◌≡◌, ◌≤◌, ◌<◌, ◌-◌, ◌+◌, ◌*◌, ◌==◌, length,
  ite, if◌then◌else◌, refl, arith, ap, sym, ◌∙◌, if_pos, if_neg, Bool-cases, inl, inr, ℕ_discrete,
}

-- What a packet's interface, by the bytes of its name, port and state say of it.
abbrev pub is_named : List ℕ → List ℕ → Bool
is_named name other = ite (bytes_eq name other) true false

abbrev pub is_known : CtState → Bool
is_known CtState.established = true
is_known CtState.related = true
is_known _ = false

-- A name of n bytes at most is padded with zeros to n bytes.
pad_to-zeros :
    (n : ℕ) (name : List ℕ) → length name ≤ n → pad_to n name ≡ name ++ zeros (n - length name)
unfolding pad_to zeros
pad_to-zeros zero [] h = refl
pad_to-zeros zero (c ∷ name) h = absurd (omega arith)
pad_to-zeros (suc n) [] h =
    let e : suc n - 0 ≡ suc (n - 0) = omega arith in
    rw e (ap (◌∷◌ 0) (pad_to-zeros n [] (omega arith)))
pad_to-zeros (suc n) (c ∷ name) h =
    let e : suc n - suc (length name) ≡ n - length name = omega arith in
    rw e (ap (◌∷◌ c) (pad_to-zeros n name (omega arith)))

pub pad_interface_name-register :
    (name : List ℕ) → length name ≤ 16 → pad_interface_name name ≡ name_register name
unfolding pad_interface_name
pad_interface_name-register name h = pad_to-zeros 16 name h

pub compare_name :
    {A : Type 0} (name other : List ℕ) (x y : A)
    → IsName name
    → IsName other
    → ite (bytes_eq (name_register name) (pad_interface_name other)) x y
      ≡ (if is_named name other then x else y)
compare_name name other x y hn ho =
    let padded = pad_interface_name-register name hn.0 in
    elim (bytes_eq name other) [
      | yes e ↦
          rw
            (
              if_pos (bytes_eq name other) e true false,
              if_pos (bytes_eq (name_register name) (pad_interface_name other))
                  (sym padded ∙ ap pad_interface_name e) x y,
            )
            refl
      | no d ↦
          rw
            (
              if_neg (bytes_eq name other) d true false,
              if_neg (bytes_eq (name_register name) (pad_interface_name other))
                  (λ same.
                    d (pad_interface_name-inj name other hn.0 ho.0 hn.1 ho.1 (padded ∙ same)))
                  x y,
            )
            refl
    ]

pub compare_byte :
    {A : Type 0} (a b : ℕ) (x y : A)
    → ite (bytes_eq (a ∷ []) (b ∷ [])) x y ≡ (if a == b then x else y)
compare_byte a b x y = ground arith

pub compare_port :
    {A : Type 0} (high low : ℕ) (x y : A)
    → low < 256
    → ite (bytes_eq (high ∷ low ∷ []) (port_bytes 68)) x y
      ≡ (if high * 256 + low == 68 then x else y)
unfolding port_bytes
compare_port high low x y h = elim (Bool-cases (high * 256 + low == 68)) [
  | inl e ↦
      let top : high ≡ 0 = ground arith in
      let bottom : low ≡ 68 = ground arith in
      let same : high ∷ low ∷ [] ≡ port_bytes 68 = rw (top, bottom) refl in
      rw (e, if_pos (bytes_eq (high ∷ low ∷ []) (port_bytes 68)) same x y) refl
  | inr e ↦ ground arith
]

pub compare_state :
    {A : Type 0} (s : CtState) (x y : A)
    → ite (bytes_eq (masked (6 ∷ 0 ∷ 0 ∷ 0 ∷ []) zero_bytes (state_register s)) zero_bytes) y x
      ≡ (if is_known s then x else y)
unfolding masked state_register bytes_eq ℕ_discrete
compare_state CtState.invalid x y = refl
compare_state CtState.established x y = refl
compare_state CtState.related x y = refl
compare_state CtState.new x y = refl
compare_state CtState.untracked x y = refl

pub state_mask_known :
    (r : Rustables) → r.established ≡ 2 → r.related ≡ 4 → state_mask r ≡ 6 ∷ 0 ∷ 0 ∷ 0 ∷ []
unfolding state_mask to_le_bytes
state_mask_known r e f = rw (e, f) refl
