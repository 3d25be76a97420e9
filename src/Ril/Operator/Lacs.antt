-- ===== src/Ril/Operator/Lacs.antt =====
-- The LACs that `responseOperatorInfos` of MediaTekRIL.java reads, four digits for each name.
use android_device_gionee_p.Common.{
  ℕ, suc, ◌*◌, ◌≡◌, refl, [], ◌∷◌, Bool, true, false, ◌&&◌, some, ltb, length, arith,
}
use android_device_gionee_p.Format.{Text}
use android_device_gionee_p.Wifi.Strings.{digit_value}
use android_device_gionee_p.Ril.Operator.{hex_text, behind_lac}

-- What is left of the LACs for `n` names.
abbrev pub IsLeft : Bool → ℕ → Text → Type 0
IsLeft false n lac = Unit {0}
IsLeft true n lac = (hex_text lac ≡ true) × (length lac ≡ 4 * n)

all_true :
    (p q r s t : Bool)
    → (p && (q && (r && (s && t)))) ≡ true
    → ((p && (q && (r && (s && true)))) ≡ true) × (t ≡ true)
all_true true true true true t h = (refl, h)
all_true true true true false t h = cc
all_true true true false s t h = cc
all_true true false r s t h = cc
all_true false q r s t h = cc

abbrev is_digit : ℕ → Bool
is_digit c = ltb (digit_value c) 16

hex_text-four :
    (a b c d : ℕ) (rest : Text)
    → hex_text (a ∷ b ∷ c ∷ d ∷ rest) ≡ true
    → (hex_text (a ∷ b ∷ c ∷ d ∷ []) ≡ true) × (hex_text rest ≡ true)
unfolding hex_text
hex_text-four a b c d rest h =
    all_true (is_digit a) (is_digit b) (is_digit c) (is_digit d) (hex_text rest) h

pub behind_lac_lem :
    (valid : Bool) (n : ℕ) (name lac : Text)
    → IsLeft valid (suc n) lac
    → (rest : Text) × (behind_lac valid (some name) lac ≡ some rest) × IsLeft valid n rest
unfolding behind_lac
behind_lac_lem false n name lac h = (lac, refl, tt)
behind_lac_lem true n name (a ∷ b ∷ c ∷ d ∷ rest) (hex, len) =
    let (four, others) = hex_text-four a b c d rest hex in
    (rest, rw four refl, (others, omega arith))
behind_lac_lem true n name [] (hex, len) = absurd (let no_way : ⊥ = omega arith in no_way)
behind_lac_lem true n name (a ∷ []) (hex, len) = absurd (let no_way : ⊥ = omega arith in no_way)
behind_lac_lem true n name (a ∷ b ∷ []) (hex, len) = absurd (let no_way : ⊥ = omega arith in no_way)
behind_lac_lem true n name (a ∷ b ∷ c ∷ []) (hex, len) =
    absurd (let no_way : ⊥ = omega arith in no_way)
