-- ===== src/Vault/Action.antt =====
-- Steps that read and change the disk and may fail; a step that fails leaves the disk as it was at
-- the failure.
use sim_tooling.Support.{◌≡◌, refl, Result, ok, err}
use sim_tooling.Vault.{VaultError}
use sim_tooling.Vault.Namespace.{Disk}

abbrev pub Outcome {ℓ} : Type ℓ → Type ℓ
Outcome T = Result VaultError T × Disk

abbrev pub Action {ℓ} : Type ℓ → Type ℓ
Action T = Disk → Outcome T

-- A step that only reads.
abbrev pub reading {ℓ} : {T : Type ℓ} → (Disk → Result VaultError T) → Action T
reading look disk = (look disk, disk)

abbrev pub done : Action (Unit {0})
done disk = (ok tt, disk)

abbrev pub next {ℓ κ} : {S : Type ℓ} {T : Type κ} → (S → Action T) → Outcome S → Outcome T
next f (ok s, disk) = f s disk
next f (err e, disk) = (err e, disk)

infixl 5 ◌>>=◌
abbrev pub ◌>>=◌ {ℓ κ} : {S : Type ℓ} {T : Type κ} → Action S → (S → Action T) → Action T
(m >>= f) disk = next f (m disk)

infixl 5 ◌>>◌
abbrev pub ◌>>◌ {κ} : {T : Type κ} → Action (Unit {0}) → Action T → Action T
m >> n = m >>= λ _. n

-- What holds of a chain: it holds where the first step fails, and where the rest follows it.
pub >>=-outcome {ℓ κ μ} :
    {S : Type ℓ} {T : Type κ} (P : Outcome T → Type μ) (m : Action S) (f : S → Action T)
    (disk : Disk)
    → ((e : VaultError) (disk' : Disk) → m disk ≡ (err e, disk') → P (err e, disk'))
    → ((s : S) (disk' : Disk) → m disk ≡ (ok s, disk') → P (f s disk'))
    → P ((m >>= f) disk)
>>=-outcome {S = S} P m f disk failed went = of_outcome (m disk) refl
  where
    of_outcome : (o : Outcome S) → m disk ≡ o → P (next f o)
    of_outcome (ok s, disk') h = went s disk' h
    of_outcome (err e, disk') h = failed e disk' h

pub >>=-outcome_of_reading {ℓ κ μ} :
    {S : Type ℓ} {T : Type κ} (P : Outcome T → Type μ) (look : Disk → Result VaultError S)
    (f : S → Action T) (disk : Disk)
    → ((e : VaultError) → look disk ≡ err e → P (err e, disk))
    → ((s : S) → look disk ≡ ok s → P (f s disk))
    → P ((reading look >>= f) disk)
>>=-outcome_of_reading {S = S} P look f disk failed went = of_result (look disk) refl
  where
    of_result : (r : Result VaultError S) → look disk ≡ r → P (next f (r, disk))
    of_result (ok s) h = went s h
    of_result (err e) h = failed e h
