-- ===== src/ConfigWriter.antt =====
-- src/bitcoiners_dca/web/config_writer.py: updates of the configuration by dotted paths. YAML's
-- mappings are `Items`; whatever is no mapping and not null is a `scalar` of a type that the model
-- leaves open. `same` stands for Python's `==` on the values, and `valid` for the schema. A path is
-- its first part and the others, as `split(".")` gives them. The file holds the raw mapping, and
-- its replacement is one step (`os.replace`).
pub mod Paths
pub mod Patches
use bitcoiners_dca.Prelude.{String, Bool, List, [], ◌∷◌, if◌then◌else◌, str_eq}

mutual
  pub data Value (S : Type 0) : Type 0 where
    null : Value S
    scalar : S → Value S
    mapping : Items S → Value S

  pub data Items (S : Type 0) : Type 0 where
    empty : Items S
    item : String → Value S → Items S → Items S

abbrev pub Dotted : Type 0
Dotted = String × List String

-- `ConfigWriteError`, or the schema's own exception, and the changed paths.
pub data Outcome : Type 0 where
  saved : List Dotted → Outcome
  rejected : Outcome

module _ {S : Type 0} where
  -- `d.get(part)`
  unfoldable pub find : String → Items S → Value S
  find k empty = null
  find k (item j v rest) = if str_eq k j then v else find k rest

  -- `cur[part] = value`
  unfoldable pub put : String → Value S → Items S → Items S
  put k v empty = item k v empty
  put k v (item j w rest) = if str_eq k j then item j v rest else item j w (put k v rest)

  abbrev pub step : Value S → String → Value S
  step null k = null
  step (scalar s) k = null
  step (mapping d) k = find k d

  -- `_get_dotted`, from a value on
  unfoldable pub walk_down : Value S → List String → Value S
  unfolding find
  walk_down v [] = v
  walk_down v (k ∷ ks) = walk_down (step v k) ks

  unfoldable pub get_dotted : Items S → Dotted → Value S
  unfolding walk_down
  get_dotted d (k, ks) = walk_down (mapping d) (k ∷ ks)

  -- The mapping that `_set_dotted` goes on with: a new one in place of anything else.
  abbrev pub child : Value S → Items S
  child null = empty
  child (scalar s) = empty
  child (mapping d) = d

  -- `_set_dotted`
  unfoldable pub set_dotted : Items S → String → List String → Value S → Items S
  unfolding find put
  set_dotted d k [] v = put k v d
  set_dotted d k (j ∷ js) v = put k (mapping (set_dotted (child (find k d)) j js v)) d

  module _ (same : Value S → Value S → Bool) (valid : Items S → Bool) where
    -- The loop over the updates: the paths that changed, and the mapping.
    unfoldable pub apply_updates : List (Dotted × Value S) → Items S → List Dotted × Items S
    unfolding get_dotted set_dotted
    apply_updates [] raw = ([], raw)
    apply_updates ((path, value) ∷ updates) raw =
        if same (get_dotted raw path) value then apply_updates updates raw else (
          path ∷ (apply_updates updates (set_dotted raw path.0 path.1 value)).0,
          (apply_updates updates (set_dotted raw path.0 path.1 value)).1,
        )

    abbrev pub save : Items S → List Dotted × Items S → Outcome × Items S
    save file ([], raw) = (if valid raw then saved [] else rejected, file)
    save file (path ∷ changed, raw) =
        if valid raw then (saved (path ∷ changed), raw) else (rejected, file)

    -- `patch_and_save`, with the file's contents before and after.
    unfoldable pub patch_and_save : List (Dotted × Value S) → Items S → Outcome × Items S
    unfolding apply_updates
    patch_and_save updates file = save file (apply_updates updates file)
