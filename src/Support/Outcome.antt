-- ===== src/Support/Outcome.antt =====
-- `Result<T, E>`: a fallible step returns a value or an error of its component.
use mathlib.Core.Logic.{◌⊎◌, inl, inr}
use mathlib.Core.Path.{◌≡◌, refl}
use mathlib.Core.Bool.{Bool, true, false}
use mathlib.Core.Option.{Option, none, some}

-- The error type comes first here, since a component fixes it.
pub data Result {failure value} (E : Type failure) (T : Type value) : Type (failure ⊔ value) where
  ok : T → Result E T
  err : E → Result E T

module _ {ℓ} {E : Type ℓ} where
  -- `if bad { return Err(e) }`
  abbrev pub refuse_if : Bool → E → Result E (Unit {0})
  refuse_if b e = elim b [ true ↦ err e | false ↦ ok tt ]

  pub refuse_if-ok : (b : Bool) (e : E) {u : Unit {0}} → refuse_if b e ≡ ok u → b ≡ false
  refuse_if-ok true e h = cc
  refuse_if-ok false e h = refl

  module _ {κ} {T : Type κ} where
    -- `Option::ok_or`
    abbrev pub ok_or : Option T → E → Result E T
    ok_or o e = elim o [ some t ↦ ok t | none ↦ err e ]

    infixl 5 ◌>>◌
    -- `f()?;`
    abbrev pub ◌>>◌ : Result E (Unit {0}) → Result E T → Result E T
    first >> next = elim first [ ok u ↦ next | err e ↦ err e ]

    pub Result-cases : (r : Result E T) → ((t : T) × (r ≡ ok t)) ⊎ ((e : E) × (r ≡ err e))
    Result-cases (ok t) = inl (t, refl)
    Result-cases (err e) = inr (e, refl)

    pub ok-inj : {s t : T} → ◌≡◌ {A = Result E T} (ok s) (ok t) → s ≡ t
    ok-inj h = cc

  module _ {κ μ} {S : Type κ} {T : Type μ} where
    infixl 5 ◌>>=◌
    -- `f(r?)`
    abbrev pub ◌>>=◌ : Result E S → (S → Result E T) → Result E T
    r >>= f = elim r [ ok s ↦ f s | err e ↦ err e ]

    -- A chain that returns has a first step that returned.
    pub >>=-eq-ok :
        (r : Result E S) (f : S → Result E T) {t : T}
        → (r >>= f) ≡ ok t
        → (s : S) × (r ≡ ok s) × (f s ≡ ok t)
    >>=-eq-ok (ok s) f h = (s, refl, h)
    >>=-eq-ok (err e) f h = cc

    -- The same, for a goal that reads what the chain computed.
    pub >>=-ok-elim {ν} :
        {G : Type ν} (r : Result E S) (f : S → Result E T) {t : T}
        → (r >>= f) ≡ ok t
        → ((s : S) → r ≡ ok s → f s ≡ ok t → G)
        → G
    >>=-ok-elim (ok s) f h k = k s refl h
    >>=-ok-elim (err e) f h k = cc

module _ {ℓ κ} {E : Type ℓ} {T : Type κ} where
  pub >>-ok-elim {ν} :
      {G : Type ν} (r : Result E (Unit {0})) (next : Result E T) {t : T}
      → (r >> next) ≡ ok t
      → (r ≡ ok tt → next ≡ ok t → G)
      → G
  >>-ok-elim (ok tt) next h k = k refl h
  >>-ok-elim (err e) next h k = cc

  pub ok_or-eq-ok : (o : Option T) (e : E) {t : T} → ok_or o e ≡ ok t → o ≡ some t
  ok_or-eq-ok (some t) e h = cc
  ok_or-eq-ok none e h = cc
