-- ===== src/Tests/Catalogs.antt =====
-- The catalog of the unit tests of src/plan.rs, and one with a cycle.
use moenotes_assets.Base.{
  ℕ, false, Option, none, some, List, [], ◌∷◌, map, ◌≡◌, refl, String, ◌%◌, ◌++◌, ◌/◌, replicate,
}
use moenotes_assets.Base.Outcome.{Result, ok}
use moenotes_assets.Base.Bytes.{codes, equal, starts_with, Bytes}
use moenotes_assets.Catalog.{
  Location, Selector, Catalog, get, ids_of, resolve, selects, only, agrees, candidate, closure_from,
  closure_loop, visit, collected, supported, pushed, contains, edges, plain,
}
use moenotes_assets.Catalog.Closure.{closure_from_total}
use moenotes_assets.Catalog.Reach.{IsClosure, closure_from-IsClosure}
use moenotes_assets.Catalog.Parse.{
  parse, keys_of, key_entries, key_entry, keep, extend, add, locate, locations_loop, enter,
  option_size, size_of,
}
use moenotes_assets.Catalog.Parse.Total.{parse_total}
use moenotes_assets.Catalog.Parse.Closed.{IsClosed, parse-IsClosed}
use moenotes_assets.Catalog.Reader.{
  u32, take_at, array, key, type_name, string, string_by, cached, static_string, decoded, remember,
  key_text, location, options,
}
use moenotes_assets.Base.Bytes.{range, le}
use moenotes_assets.Plan.{
  Plan, build, build_from, planned, narrowed, chosen, sort, insert, remote, is_cri, names_font,
  is_font, supports,
}

abbrev image : Location
image = record {
  id = 1;
  key = codes "image";
  internal = codes "Assets/image";
  provider = codes "bundled";
  resource_type = codes "UnityEngine.Texture2D";
  dependencies = 2 ∷ 3 ∷ [];
  options = none;
}

abbrev bundle : ℕ → String → Location
bundle id internal = record {
  id = id;
  key = codes "bundle";
  internal = codes internal;
  provider = plain;
  resource_type = codes "bundle";
  dependencies = [];
  options = some (record { hash = codes "h"; bundle_name = codes "b"; crc = 0; size = 1 });
}

abbrev fixture : Catalog
fixture = record {
  keys = (codes "image", 1 ∷ []) ∷ [];
  locations =
      (1, image)
      ∷ (2, bundle 2 "https://cdn.invalid/asset/Android/a.bundle")
      ∷ (3, bundle 3 "{RuntimePath}/script.bundle")
      ∷ [];
}

abbrev any_type : Selector
any_type = record { expected_type = none; location_id = none }

abbrev plan_in : Option (Result Plan) → Plan
plan_in (some (ok p)) = p
plan_in _ = record {
  target = image;
  dependencies = [];
  omitted_local = [];
  archive = false;
  font = false;
  embedded_cri = false;
  supported = false;
}

fetched_ids :
    map
      (λ (l : Location). l.id)
      (plan_in (build fixture (codes "image") any_type false)).dependencies
    ≡ 2 ∷ []
unfolding build build_from planned narrowed chosen sort insert remote is_cri names_font is_font
    supports resolve ids_of get selects only agrees candidate closure_from closure_loop visit
    collected supported pushed contains edges equal starts_with
fetched_ids = refl

omitted_ids :
    map
      (λ (l : Location). l.id)
      (plan_in (build fixture (codes "image") any_type false)).omitted_local
    ≡ 3 ∷ []
unfolding build build_from planned narrowed chosen sort insert remote is_cri names_font is_font
    supports resolve ids_of get selects only agrees candidate closure_from closure_loop visit
    collected supported pushed contains edges equal starts_with
omitted_ids = refl

abbrev cyclic : Catalog
cyclic = record {
  keys = [];
  locations =
      (1, record image { dependencies = 2 ∷ 1 ∷ [] })
      ∷ (2, record (bundle 2 "https://cdn.invalid/b") { dependencies = 1 ∷ [] })
      ∷ [];
}

closure_from_total_example : (r : Result (List Location)) × (closure_from cyclic 1 ≡ some r)
closure_from_total_example = closure_from_total cyclic 1

cyclic-closure_from :
    closure_from cyclic 1
    ≡ some (ok (record (bundle 2 "https://cdn.invalid/b") { dependencies = 1 ∷ [] } ∷ []))
unfolding closure_from closure_loop visit collected supported pushed contains edges get equal
cyclic-closure_from = refl

closure_from-IsClosure_example :
    IsClosure cyclic.locations 1
      (record (bundle 2 "https://cdn.invalid/b") { dependencies = 1 ∷ [] } ∷ [])
closure_from-IsClosure_example = closure_from-IsClosure cyclic 1 cyclic-closure_from

-- A little-endian word
abbrev word : ℕ → Bytes
word n = n % 256 ∷ n / 256 % 256 ∷ n / 65536 % 256 ∷ n / 16777216 % 256 ∷ []

-- One key, "k", with one location, at 104, that depends on itself.
abbrev catalog_file : Bytes
catalog_file =
    word 0x0de38942
    ++ word 2
    ++ word 36
    ++ replicate 20 0
    ++ word 8
    ++ word 52
    ++ word 48
    ++ word 4
    ++ word 104
    ++ word 60
    ++ word 88
    ++ word 0
    ++ word 72
    ++ word 13
    ++ codes "System.String"
    ++ replicate 3 0
    ++ word 100
    ++ replicate 4 0
    ++ word 1
    ++ codes "k"
    ++ replicate 3 0
    ++ word 100
    ++ word 100
    ++ word 100
    ++ word 136
    ++ word 0
    ++ word 0xffff_ffff
    ++ word 60
    ++ word 4
    ++ word 104

abbrev parsed : Option (Result Catalog) → Catalog
parsed (some (ok c)) = c
parsed _ = cyclic

parse-catalog_file : parse catalog_file ≡ some (ok (parsed (parse catalog_file)))
unfolding parse keys_of u32 take_at range le array key_entries key_entry key type_name string
    string_by cached static_string decoded remember key_text keep extend add locate locations_loop
    enter location options option_size size_of equal ids_of get
parse-catalog_file = refl

dependencies_of_file :
    map (λ (e : ℕ × Location). e.1.dependencies) (parsed (parse catalog_file)).locations
    ≡ (104 ∷ []) ∷ []
unfolding parse keys_of u32 take_at range le array key_entries key_entry key type_name string
    string_by cached static_string decoded remember key_text keep extend add locate locations_loop
    enter location options option_size size_of equal ids_of get
dependencies_of_file = refl

parse_total_example : (r : Result Catalog) × (parse catalog_file ≡ some r)
parse_total_example = parse_total catalog_file

parse-IsClosed_example : IsClosed (parsed (parse catalog_file))
parse-IsClosed_example = parse-IsClosed catalog_file parse-catalog_file
