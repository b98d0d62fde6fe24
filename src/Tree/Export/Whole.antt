-- ===== src/Tree/Export/Whole.antt =====
-- The plan of src/tree.rs: no two objects share a key, and every file has its object.
use moenotes_assets.Base.{
  Bool, true, false, none, some, List, [], ◌∷◌, ◌++◌, map, ◌≡◌, inl, inr, refl, sym, ap, ◌∙◌, ◌==◌,
  if◌then◌else◌, length, All, Option-cases, append_assoc, All-append, append-nil, ==_iff,
}
use moenotes_assets.Base.Outcome.{ok, context, >>=-eq-ok, ensure-eq-ok}
use moenotes_assets.Base.Bytes.{Bytes}
use mathlib.Core.Path.{subst}
use mathlib.Core.List.{map-append}
use moenotes_assets.Base.Outcome.{ok_injective}
use moenotes_assets.Crypto.{Primitives}
use moenotes_assets.Tree.{Object, verify, safe_destination}
use moenotes_assets.Tree.Regular.{IsRegular, verify-IsRegular}
use moenotes_assets.Tree.Export.{
  Disk, Manifest, PublishedFile, Planned, Progress, insert, lookup, lower_key, extension, object_of,
  safe_source, verify_there, plan_file, plan_files, name_export, plan_manifest, plan_manifests,
  same_object,
}
use moenotes_assets.Tree.Export.Distinct.{
  Distinct, entry, IsMapOf, insert-IsMapOf, same_object-eq, lookup-insert_self, lookup-insert_new,
  keys,
}
use moenotes_assets.Tree.Export.Listed.{index_map-IsMapOf}
use moenotes_assets.Tree.Export.Preflight.{
  index_map, verify_objects, check_directories, plan_export, add_empty,
}

abbrev opening : List Object → List (Bytes × Bytes) → List (Bytes × Bytes) → Progress
opening objects logical empty_exports = record {
  existing = index_map [] objects;
  logical = add_empty empty_exports logical;
  empty_exports = empty_exports;
  planned = [];
}

abbrev pub object_at : Planned → Object
object_at q = q.object

regroup :
    (os : List Object) (qs : List Planned) (q : Planned)
    → (os ++ map object_at qs) ++ q.object ∷ [] ≡ os ++ map object_at (qs ++ q ∷ [])
regroup os qs q = simp (map-append, append_assoc)

module _ (p : Primitives) (disk : Disk) (data_dir root : List Bytes) where
  -- A planned object has a safe place, and its source is a file of the size and the hash.
  abbrev pub Verified : Planned → Type 0
  Verified q =
      (safe_destination disk.links root q.object.object_key ≡ ok q.to)
      × IsRegular p (disk.at q.source) q.object.bytes q.object.sha256

  -- The object of a file is found.
  pub record Stored (m : Manifest) (existing : List (Bytes × Object)) (f : PublishedFile)
      : Type 0 where
    pub to : List Bytes
    pub object : Object
    pub named : object_of p disk root m f ≡ ok (to, object)
    pub found : lookup (lower_key object) existing ≡ some object

  record IsPlan (objects : List Object) (s : Progress) : Type 0 where
    mapped : IsMapOf (objects ++ map object_at s.planned) s.existing
    verified : All Verified s.planned

  abbrev Grows : Progress → Progress → Type 0
  Grows s t = (k : Bytes) (o : Object) → lookup k s.existing ≡ some o → lookup k t.existing ≡ some o

  record After (objects : List Object) (s t : Progress) : Type 0 where
    plan : IsPlan objects t
    grown : Grows s t

  placed :
      {a b : List Bytes} {k l : Bytes}
      → a ≡ b
      → k ≡ l
      → safe_destination disk.links root k ≡ ok a
      → safe_destination disk.links root l ≡ ok b
  placed e f h = ap (safe_destination disk.links root) (sym f) ∙ h ∙ ap ok e

  planned-IsPlan :
      (objects : List Object) (s : Progress) (q : Planned)
      → IsPlan objects s
      → Verified q
      → lookup (lower_key q.object) s.existing ≡ none
      → IsPlan objects (record s {
        existing = insert (lower_key q.object) q.object s.existing;
        planned = s.planned ++ q ∷ [];
      })
  planned-IsPlan objects s q i v new = record {
    mapped =
        subst (λ (x : List Object). IsMapOf x (insert (lower_key q.object) q.object s.existing))
          (regroup objects s.planned q)
          (insert-IsMapOf q.object (objects ++ map object_at s.planned) s.existing new i.mapped);
    verified = All-append Verified s.planned (q ∷ []) i.verified (v, tt);
  }

  object_of-safe :
      (m : Manifest) (f : PublishedFile) {to : List Bytes} {o : Object}
      → object_of p disk root m f ≡ ok (to, o)
      → safe_destination disk.links root o.object_key ≡ ok to
  unfolding object_of
  object_of-safe m f {to} {o} h =
      let (ext, _, h₁) = >>=-eq-ok (context (extension f.artifact.name) "artifact extension") _ h in
      let (_, h₂) = ensure-eq-ok _ _ _ h₁ in
      let (at_place, e, h₃) = >>=-eq-ok (safe_destination disk.links root _) _ h₂ in
      let same = ok_injective h₃ in placed (ap (λ x. x.0) same) (ap (λ x. x.1.object_key) same) e

  plan_file-After :
      (objects : List Object) (m : Manifest) (f : PublishedFile) (s : Progress) {t : Progress}
      → IsPlan objects s
      → plan_file p disk data_dir root m f s ≡ ok t
      → After objects s t × Stored m t.existing f
  unfolding plan_file
  plan_file-After objects m f s {t} i h =
      let ((to, o), named, h₁) = >>=-eq-ok (object_of p disk root m f) _ h in
      let (_, h₂) = ensure-eq-ok (safe_source m f) _ _ h₁ in
      let (source, _, h₃) = >>=-eq-ok (safe_destination disk.links data_dir _) _ h₂ in
      let (_, checked, h₄) = >>=-eq-ok (verify p (disk.at source) o.bytes o.sha256) _ h₃ in
      elim (Option-cases (lookup (lower_key o) s.existing)) [
        | inr (old, found) ↦
            let (same, h₅) = ensure-eq-ok (same_object old o) _ _ (rw found at h₄) in
            let stays = ok_injective h₅ in
            let there = found ∙ ap some (same_object-eq old o same) in
            subst (λ (x : Progress). After objects s x × Stored m x.existing f) stays
              (
                record { plan = i; grown = λ k a e. e },
                record { to = to; object = o; named = named; found = there },
              )
        | inl new ↦
            let (_, _, h₅) = >>=-eq-ok (verify_there p disk data_dir root to o) _ (rw new at h₄) in
            let q : Planned = record { source = source; to = to; object = o } in
            subst (λ (x : Progress). After objects s x × Stored m x.existing f) (ok_injective h₅)
              (
                record {
                  plan =
                      planned-IsPlan objects s q i
                        (
                          object_of-safe m f named,
                          verify-IsRegular p (disk.at source) o.bytes o.sha256 checked,
                        )
                        new;
                  grown = λ k a e. lookup-insert_new (lower_key o) k o a s.existing new e;
                },
                record {
                  to = to;
                  object = o;
                  named = named;
                  found = lookup-insert_self (lower_key o) o s.existing;
                },
              )
      ]

  kept :
      (m : Manifest) (f : PublishedFile) (s t : Progress)
      → Grows s t
      → Stored m s.existing f
      → Stored m t.existing f
  kept m f s t g h = record {
    to = h.to;
    object = h.object;
    named = h.named;
    found = g (lower_key h.object) h.object h.found;
  }

  All-kept :
      (m : Manifest) (fs : List PublishedFile) (s t : Progress)
      → Grows s t
      → All (Stored m s.existing) fs
      → All (Stored m t.existing) fs
  All-kept m [] s t g h = tt
  All-kept m (f ∷ fs) s t g h = (kept m f s t g h.0, All-kept m fs s t g h.1)

  -- What the naming of an export leaves.
  renamed :
      (objects : List Object) (s u : Progress)
      → u.existing ≡ s.existing
      → u.planned ≡ s.planned
      → IsPlan objects s
      → IsPlan objects u
  renamed objects s u e f i = record {
    mapped =
        subst (λ (x : List (Bytes × Object)). IsMapOf (objects ++ map object_at u.planned) x)
          (sym e)
          (subst (λ (x : List Planned). IsMapOf (objects ++ map object_at x) s.existing) (sym f)
            i.mapped);
    verified = subst (All Verified) (sym f) i.verified;
  }

  named_keeps :
      (objects : List Object) (s u : Progress) (fresh : Bool) (l e : List (Bytes × Bytes))
      → ◌≡◌ {A = Progress}
          (if fresh then record s { logical = l; empty_exports = e } else record s { logical = l })
          u
      → IsPlan objects s
      → IsPlan objects u × (s.existing ≡ u.existing)
  named_keeps objects s u true l e h i =
      subst (λ (x : Progress). IsPlan objects x × (s.existing ≡ x.existing)) h
        (renamed objects s (record s { logical = l; empty_exports = e }) refl refl i, refl)
  named_keeps objects s u false l e h i =
      subst (λ (x : Progress). IsPlan objects x × (s.existing ≡ x.existing)) h
        (renamed objects s (record s { logical = l }) refl refl i, refl)

  plan_files-After :
      (objects : List Object) (m : Manifest) (fs : List PublishedFile) (s : Progress) {t : Progress}
      → IsPlan objects s
      → plan_files p disk data_dir root m fs s ≡ ok t
      → After objects s t × All (Stored m t.existing) fs
  unfolding plan_files
  plan_files-After objects m [] s i h =
      subst (λ (x : Progress). After objects s x × Unit {0}) (ok_injective h)
        (record { plan = i; grown = λ k a e. e }, tt)
  plan_files-After objects m (f ∷ fs) s {t} i h =
      let (u, one, more) = >>=-eq-ok (plan_file p disk data_dir root m f s) _ h in
      let (a, stored) = plan_file-After objects m f s i one in
      let (b, all_stored) = plan_files-After objects m fs u a.plan more in
      (
        record { plan = b.plan; grown = λ k o e. b.grown k o (a.grown k o e) },
        (kept m f u t b.grown stored, all_stored),
      )

  plan_manifest-After :
      (objects : List Object) (m : Manifest) (s : Progress) {t : Progress}
      → IsPlan objects s
      → plan_manifest p disk data_dir root m s ≡ ok t
      → After objects s t × All (Stored m t.existing) m.files
  unfolding plan_manifest name_export
  plan_manifest-After objects m s {t} i h =
      let (u, named, h₁) = >>=-eq-ok (name_export p disk data_dir root m s) _ h in
      let (_, h₂) = ensure-eq-ok _ _ _ h₁ in
      let (_, h₃) = ensure-eq-ok _ _ _ named in
      let keeps : IsPlan objects u × (s.existing ≡ u.existing) =
        named_keeps objects s u _ _ _ (ok_injective h₃) i in
      let (b, stored) = plan_files-After objects m m.files u keeps.0 h₂ in
      (
        record { plan = b.plan; grown = λ k o e. b.grown k o (ap (lookup k) (sym keeps.1) ∙ e) },
        stored,
      )

  plan_manifests-After :
      (objects : List Object) (ms : List Manifest) (s : Progress) {t : Progress}
      → IsPlan objects s
      → plan_manifests p disk data_dir root ms s ≡ ok t
      → After objects s t × All (λ m. All (Stored m t.existing) m.files) ms
  unfolding plan_manifests
  plan_manifests-After objects [] s i h =
      subst (λ (x : Progress). After objects s x × Unit {0}) (ok_injective h)
        (record { plan = i; grown = λ k a e. e }, tt)
  plan_manifests-After objects (m ∷ ms) s {t} i h =
      let (u, one, more) = >>=-eq-ok (plan_manifest p disk data_dir root m s) _ h in
      let (a, stored) = plan_manifest-After objects m s i one in
      let (b, all_stored) = plan_manifests-After objects ms u a.plan more in
      (
        record { plan = b.plan; grown = λ k o e. b.grown k o (a.grown k o e) },
        (All-kept m m.files u t b.grown stored, all_stored),
      )

  -- When the planning succeeds, the keys of the objects that are there and of those planned are all
  -- different, also where capitals count as small letters; each planned object has a place that
  -- `safe_destination` gives, and a source of the size and hash of the object; and each file of each
  -- manifest has its object, with the name that the manifest gives it, among those.
  pub plan_export-IsWhole :
      (objects : List Object) (empty_exports : List (Bytes × Bytes)) (manifests : List Manifest)
      {t : Progress}
      → plan_export p disk data_dir root objects empty_exports manifests ≡ ok t
      → Distinct (keys (objects ++ map object_at t.planned))
        × All Verified t.planned
        × All
            (λ m. All (Stored m (map entry (objects ++ map object_at t.planned))) m.files)
            manifests
  unfolding plan_export
  plan_export-IsWhole objects empty_exports manifests {t} h =
      let (same_length, h₁) =
        ensure-eq-ok (length (index_map [] objects) == length objects) _ _ h in
      let (logical, _, h₂) = >>=-eq-ok (verify_objects p disk root objects []) _ h₁ in
      let (_, _, h₃) =
        >>=-eq-ok
          (check_directories p (map (λ m. m.key) manifests ++ map (λ o. o.asset_key) objects) [])
          (λ _.
            plan_manifests p disk data_dir root manifests (opening objects logical empty_exports))
          h₂ in
      let start = index_map-IsMapOf objects ((==_iff _ _).0 same_length) in
      let first : IsPlan objects (opening objects logical empty_exports) = record {
        mapped =
            subst (λ (x : List Object). IsMapOf x (index_map [] objects)) (sym (append-nil objects))
              start;
        verified = tt;
      } in
      let (a, stored) =
        plan_manifests-After objects manifests (opening objects logical empty_exports) first h₃ in
      (
        a.plan.mapped.distinct,
        a.plan.verified,
        subst (λ (e : List (Bytes × Object)). All (λ m. All (Stored m e) m.files) manifests)
            a.plan.mapped.listed stored,
      )
