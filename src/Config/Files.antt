-- ===== src/Config/Files.antt =====
-- core/src/config.cc: `ConfigStore::Load` and `ConfigStore::Save` with the three files that they use. The JSON
-- library is a parameter, and what the file system answers is an input.
use cast_mirror.Prelude.{
  ◌≡◌, refl, ap, ◌⊎◌, inl, inr, Bool, true, false, Option, none, some, if◌then◌else◌, Option-cases,
  if_cases,
}
use cast_mirror.Config.{Json, AppConfig}
use cast_mirror.Config.Limits.{validate}
use cast_mirror.Config.Document.{from_json, is_some}
use cast_mirror.Config.Written.{to_json}

-- Texts are what the JSON library makes of them; `none` is an exception of the parser, or of `dump` at a text that is
-- not UTF-8.
pub record JsonText : Type 1 where
  pub Text : Type 0
  pub empty : Text
  pub parse : Text → Option Json
  pub dump : Json → Option Text

module _ (Text : Type 0) where
  -- What `Load` finds at its path.
  pub data Found : Type 0 where
    missing unreadable : Found
    content : Text → Found

  -- A failed `copy_file` says nothing of what it leaves behind.
  pub data Copy : Type 0 where
    copied : Copy
    broken : Option Text → Copy

  -- The settings' file, its backup and the file that is written first.
  pub record Files : Type 0 where
    pub target : Option Text
    pub backup : Option Text
    pub tmp : Option Text

  -- How the calls of one `Save` come out; a write that fails leaves some text.
  pub record Outcomes : Type 0 where
    pub makes_dir : Bool
    pub opens : Bool
    pub partial : Option Text
    pub backs_up : Copy
    pub renames : Bool
    pub copies : Copy
    pub removes : Bool

  pub record Saved : Type 0 where
    pub config : AppConfig
    pub files : Files
    pub result : Bool

module _ {Text : Type 0} where
  abbrev pub found : Option Text → Found Text
  found none = missing
  found (some t) = content t

  unfoldable pub copy : Copy Text → Option Text → Option Text
  copy copied source = source
  copy (broken left) source = left

  -- The second inner `try`, once the new text is in the file written first.
  unfoldable pub replace : Outcomes Text → Text → Files Text → Files Text × Bool
  replace o t files =
      let backup = if is_some files.target then copy o.backs_up files.target else files.backup in
      if o.renames then (record { target = some t; backup = backup; tmp = none }, true) else (
        record {
          target = copy o.copies (some t);
          backup = backup;
          tmp = if o.removes then none else some t;
        },
        o.removes,
      )

  unfoldable pub write : Text → Outcomes Text → Option Text → Files Text → Files Text × Bool
  write empty o dumped files =
      if o.opens
      then elim dumped [
        | none ↦ (record files { tmp = some empty }, false)
        | some t ↦ elim o.partial [
          | none ↦ replace o t files
          | some left ↦ (record files { tmp = some left }, false)
        ]
      ]
      else (files, false)

  -- The new text reaches the settings' file whole.
  abbrev pub Replaces : Outcomes Text → Type 0
  Replaces o = (o.renames ≡ true) ⊎ (o.copies ≡ copied)

  -- The file holds the whole new text, or what it held before, and the result is false then.
  abbrev pub IsWritten : Option Text → Files Text → Type 0
  IsWritten dumped files' = (t : Text) × (dumped ≡ some t) × (files'.target ≡ some t)

  abbrev pub IsWhole : Option Text → Files Text → Files Text × Bool → Type 0
  IsWhole dumped files (files', result) =
      IsWritten dumped files' ⊎ ((files'.target ≡ files.target) × (result ≡ false))

  replace-IsWritten :
      (o : Outcomes Text) (t : Text) (files : Files Text)
      → Replaces o
      → IsWritten (some t) (replace o t files).0
  unfolding replace copy
  replace-IsWritten o t files (inl e) = rw e (t, refl, refl)
  replace-IsWritten o t files (inr e) =
      let there : copy o.copies (some t) ≡ some t = ap (λ c. copy c (some t)) e in
      if_cases {A = Files Text × Bool} (λ r. IsWritten (some t) r.0) o.renames _ _ (t, refl, refl)
        (t, refl, there)

  write-IsWhole :
      (empty : Text) (o : Outcomes Text) (dumped : Option Text) (files : Files Text)
      → Replaces o
      → IsWhole dumped files (write empty o dumped files)
  unfolding write
  write-IsWhole empty o none files r =
      if_cases (IsWhole none files) o.opens _ _ (inr (refl, refl)) (inr (refl, refl))
  write-IsWhole empty o (some t) files r =
      if_cases (IsWhole (some t) files) o.opens _ _
        (elim (Option-cases o.partial)
          as (λ _. IsWhole (some t) files (elim o.partial [
            | none ↦ replace o t files
            | some left ↦ (record files { tmp = some left }, false)
          ])) [
            | inl e ↦ rw e (inl (replace-IsWritten o t files r))
            | inr (left, e) ↦ rw e (inr (refl, refl))
          ])
        (inr (refl, refl))

module _ (json : JsonText) where
  unfoldable pub load : Found json.Text → AppConfig → AppConfig × Bool
  load missing cfg = (cfg, false)
  load unreadable cfg = (cfg, false)
  load (content t) cfg = elim (json.parse t) [
    | none ↦ (validate cfg, false)
    | some j ↦ (validate (from_json j cfg), true)
  ]

  abbrev saved : Outcomes json.Text → AppConfig → Files json.Text → Saved json.Text
  saved o cfg files =
      let (files', result) = write json.empty o (json.dump (to_json cfg)) files in
      record { config = cfg; files = files'; result = result }

  abbrev unsaved : AppConfig → Files json.Text → Saved json.Text
  unsaved cfg files = record { config = cfg; files = files; result = false }

  unfoldable pub save : Outcomes json.Text → AppConfig → Files json.Text → Saved json.Text
  save o cfg files = if o.makes_dir then saved o (validate cfg) files else unsaved cfg files

  -- Where the rename works or the copy in its place does, the settings' file holds, after a save, the whole text of
  -- the validated settings, or what it held before, and then the result is false.
  pub save-IsWhole :
      (o : Outcomes json.Text) (cfg : AppConfig) (files : Files json.Text)
      → Replaces o
      → IsWhole
          (json.dump (to_json (validate cfg)))
          files
          ((save o cfg files).files, (save o cfg files).result)
  unfolding save
  save-IsWhole o cfg files r =
      if_cases {A = Saved json.Text}
        (λ s. IsWhole (json.dump (to_json (validate cfg))) files (s.files, s.result)) o.makes_dir _
        _ (write-IsWhole json.empty o _ files r) (inr (refl, refl))
