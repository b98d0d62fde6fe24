-- ===== src/Worker/Kinds.antt =====
-- `run` of src/worker.rs: what an input of an archive is, by its signature or its checksum.
use moenotes_assets.Base.{
  ℕ, true, false, Option, none, some, ◌≡◌, inl, inr, sym, ap, ◌∙◌, arith, Bool-cases, String,
}
use moenotes_assets.Base.Outcome.{ok, context, >>=-eq-ok, ensure-eq-ok, ok_injective}
use moenotes_assets.Base.Bytes.{Bytes, codes, equal}
use mathlib.Core.Path.{subst}
use moenotes_assets.Catalog.{cri, Options}
use mathlib.Core.Option.{some_inj, none-ne-some}
use moenotes_assets.Base.Bytes.{equal_iff}
use moenotes_assets.Base.{◌≢◌, ◌⊎◌, ◌==◌, ◌||◌}
use moenotes_assets.Worker.Archive.{Input, container_extension, crc_agrees, classify}

context-ok : {A : Type 0} (o : Option A) (e : String) {a : A} → context o e ≡ ok a → o ≡ some a
context-ok none e h = cc
context-ok (some b) e h = ap some (ok_injective h)

-- The signatures of CRI containers, with the extensions of the files.
pub data IsSignature : Bytes → Bytes → Type 0 where
  usm : IsSignature (codes "CRID") (codes "usm")
  acb : IsSignature (codes "@UTF") (codes "acb")
  awb : IsSignature (codes "AFS2") (codes "awb")
  cpk : IsSignature (codes "CPK ") (codes "cpk")

-- What an input has to be for the extension: of the CRI provider and a container of a known
-- signature, or of another and a bundle whose checksum is that of the catalog, where it has one.
pub data IsKind (i : Input) : Bytes → Type 0 where
  container :
      (magic ext : Bytes)
      → i.location.provider ≡ cri
      → i.magic ≡ ok magic
      → IsSignature magic ext
      → IsKind i ext
  bundle :
      (crc : ℕ)
      → i.location.provider ≢ cri
      → i.crc ≡ ok crc
      → ((o : Options) → i.location.options ≡ some o → (o.crc ≡ 0) ⊎ (o.crc ≡ crc))
      → IsKind i (codes "bundle")

signed :
    (magic literal extension : Bytes) {ext : Bytes}
    → equal magic literal ≡ true
    → IsSignature literal extension
    → ◌≡◌ {A = Option Bytes} (some extension) (some ext)
    → IsSignature magic ext
signed magic literal extension e s h =
    subst (IsSignature magic) (some_inj.0 h)
      (subst (λ m. IsSignature m extension) (sym ((equal_iff magic literal).0 e)) s)

either_number : (a b : ℕ) → (a == 0 || a == b) ≡ true → (a ≡ 0) ⊎ (a ≡ b)
either_number a b h = ground arith

provider_differs : (a b : Bytes) → equal a b ≡ false → a ≢ b
provider_differs a b h e = absurd (ground (arith, (equal_iff a b).1 e, h))

-- A signature and what is chosen by it.
extension-IsSignature :
    (magic : Bytes) {ext : Bytes} → container_extension magic ≡ some ext → IsSignature magic ext
extension-IsSignature magic {ext} h = elim (Bool-cases (equal magic (codes "CRID"))) [
  | inl e ↦
      signed magic (codes "CRID") (codes "usm") e IsSignature.usm (rw (container_extension, e) at h)
  | inr e ↦ elim (Bool-cases (equal magic (codes "@UTF"))) [
    | inl f ↦
        signed magic (codes "@UTF") (codes "acb") f IsSignature.acb
          (rw (container_extension, e, f) at h)
    | inr f ↦ elim (Bool-cases (equal magic (codes "AFS2"))) [
      | inl g ↦
          signed magic (codes "AFS2") (codes "awb") g IsSignature.awb
            (rw (container_extension, e, f, g) at h)
      | inr g ↦ elim (Bool-cases (equal magic (codes "CPK "))) [
        | inl k ↦
            signed magic (codes "CPK ") (codes "cpk") k IsSignature.cpk
              (rw (container_extension, e, f, g, k) at h)
        | inr k ↦ absurd (none-ne-some _ (rw (container_extension, e, f, g, k) at h))
      ]
    ]
  ]
]

agrees :
    (options : Option Options) (crc : ℕ)
    → crc_agrees options crc ≡ true
    → (o : Options) → options ≡ some o
    → (o.crc ≡ 0) ⊎ (o.crc ≡ crc)
agrees none crc h o e = absurd (none-ne-some _ e)
agrees (some a) crc h o e =
    subst (λ (x : Options). (x.crc ≡ 0) ⊎ (x.crc ≡ crc)) (some_inj.0 e) (either_number a.crc crc h)

pub classify-IsKind :
    (i : Input) {ext mime role stable : Bytes}
    → classify i ≡ ok (ext, mime, role, stable)
    → IsKind i ext
unfolding classify
classify-IsKind i {ext} h = elim (Bool-cases (equal i.location.provider cri)) [
  | inl e ↦
      let (magic, read, h₁) = >>=-eq-ok i.magic _ (rw e at h) in
      let (ext', found, h₂) =
        >>=-eq-ok (context (container_extension magic) "unsupported CRI container signature") _
          h₁ in
      IsKind.container magic ext ((equal_iff i.location.provider cri).0 e) read (
        extension-IsSignature magic (
          context-ok (container_extension magic) _ found
          ∙ ap some (ap (λ x. x.0) (ok_injective h₂))))
  | inr e ↦
      let (crc, read, h₁) = >>=-eq-ok i.crc _ (rw e at h) in
      let (good, h₂) = ensure-eq-ok (crc_agrees i.location.options crc) _ _ h₁ in
      subst (IsKind i) (ap (λ x. x.0) (ok_injective h₂)) (
        IsKind.bundle crc (provider_differs i.location.provider cri e) read
          (agrees i.location.options crc good))
]
