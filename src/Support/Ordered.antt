-- ===== src/Support/Ordered.antt =====
-- `Ord`: the interface of a strict total order with a Boolean test, for the keys of the ordered
-- sets and maps, and its instances for numbers and texts.
use Prim.Native.Nat.{ℕ, Ordering}
use Prim.Native.Char.{Char, code}
use Prim.Native.String.{String, compare}
use Prim.Native.String.compare as text_compare
use mathlib.Core.Path.{◌≡◌, refl, subst}
use mathlib.Core.Logic.{◌↔◌}
use mathlib.Core.Bool.{Bool, true, false, not, ◌&&◌}
use native.Mathlib.Omega.{arith}
use text.Mathlib.TextEquality.{Char-path}
use text.Mathlib.TextPositions.{compare_refl}
use sim_tooling.Support.Tests.{ltb, ◌==◌, if◌then◌else◌}

pub record Order {ℓ} (A : Type ℓ) : Type ℓ where
  pub lt : A → A → Bool
  pub lt_irrefl : (a : A) → lt a a ≡ false
  pub lt_trans : (a b c : A) → lt a b ≡ true → lt b c ≡ true → lt a c ≡ true
  pub lt_connected : (a b : A) → lt a b ≡ false → lt b a ≡ false → a ≡ b

module _ {ℓ} {A : Type ℓ} ⦃o : Order A⦄ where
  -- `a.cmp(b) == Equal`
  abbrev pub same_key : A → A → Bool
  same_key a b = not (o.lt a b) && not (o.lt b a)

  pub same_key_iff : (a b : A) → (same_key a b ≡ true) ↔ (a ≡ b)
  same_key_iff a b = (
    λ h. ground (arith, o.lt_connected a b),
    λ e. subst (λ c. same_key a c ≡ true) e (ground (arith, o.lt_irrefl a)),
  )

  pub lt_asymm : (a b : A) → o.lt a b ≡ true → o.lt b a ≡ false
  lt_asymm a b h = ground (arith, o.lt_trans a b a, o.lt_irrefl a)

pub ltb_irrefl : (a : ℕ) → ltb a a ≡ false
ltb_irrefl a = ground arith

pub ltb_trans : (a b c : ℕ) → ltb a b ≡ true → ltb b c ≡ true → ltb a c ≡ true
ltb_trans a b c h k = ground arith

pub ltb_connected : (a b : ℕ) → ltb a b ≡ false → ltb b a ≡ false → a ≡ b
ltb_connected a b h k = ground arith

instance abbrev pub ℕ_order : Order ℕ
ℕ_order = record {
  lt = ltb;
  lt_irrefl = ltb_irrefl;
  lt_trans = ltb_trans;
  lt_connected = ltb_connected;
}

abbrev is_lt : Ordering → Bool
is_lt Ordering.lt = true
is_lt _ = false

-- `str::cmp` compares bytes, which on UTF-8 is the order of the code points.
abbrev pub text_lt : String → String → Bool
text_lt s t = is_lt (compare s t)

pub text_lt_irrefl : (s : String) → text_lt s s ≡ false
text_lt_irrefl s = rw (compare_refl s)

pub text_lt-cons :
    (c d : Char) (s t : String)
    → text_lt (String.◌∷◌ c s) (String.◌∷◌ d t)
      ≡ (if ltb (code c) (code d) then true else if code c == code d then text_lt s t else false)
text_lt-cons c d s t = rw (text_compare.cons-cons c d s t) (ground arith)

text_lt-nil : (d : Char) (t : String) → text_lt String.[] (String.◌∷◌ d t) ≡ true
text_lt-nil d t = rw (text_compare.nil-cons d t)

not-text_lt-nil : (s : String) → text_lt s String.[] ≡ false
not-text_lt-nil String.[] = refl
not-text_lt-nil (String.◌∷◌ c s) = rw (text_compare.cons-nil c s)

pub text_lt_trans : (s t u : String) → text_lt s t ≡ true → text_lt t u ≡ true → text_lt s u ≡ true
text_lt_trans s t String.[] h k = cc (not-text_lt-nil t)
text_lt_trans s String.[] (String.◌∷◌ e u) h k = cc (not-text_lt-nil s)
text_lt_trans String.[] (String.◌∷◌ d t) (String.◌∷◌ e u) h k = text_lt-nil e u
text_lt_trans (String.◌∷◌ c s) (String.◌∷◌ d t) (String.◌∷◌ e u) h k =
    ground
      (arith, text_lt-cons c d s t, text_lt-cons d e t u, text_lt-cons c e s u, text_lt_trans s t u)

pub text_lt_connected : (s t : String) → text_lt s t ≡ false → text_lt t s ≡ false → s ≡ t
text_lt_connected String.[] String.[] h k = refl
text_lt_connected String.[] (String.◌∷◌ d t) h k = cc (text_lt-nil d t)
text_lt_connected (String.◌∷◌ c s) String.[] h k = cc (text_lt-nil c s)
text_lt_connected (String.◌∷◌ c s) (String.◌∷◌ d t) h k =
    let parts : (code c ≡ code d) × (text_lt s t ≡ false) × (text_lt t s ≡ false) =
      ground (arith, text_lt-cons c d s t, text_lt-cons d c t s) in
    cc (Char-path c d parts.0, text_lt_connected s t parts.1 parts.2)

instance abbrev pub text_order : Order String
text_order = record {
  lt = text_lt;
  lt_irrefl = text_lt_irrefl;
  lt_trans = text_lt_trans;
  lt_connected = text_lt_connected;
}
