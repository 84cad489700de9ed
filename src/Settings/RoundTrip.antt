-- ===== src/Settings/RoundTrip.antt =====
-- A value that is set is read from the table when the site starts again.
use synctv.Base.{
  ◌^◌, ◌<◌, String, true, Option, none, some, ◌≡◌, refl, arith, ap, sym, ◌∙◌, suc, ltb, inl, inr,
  if_true,
}
use synctv.Base.Dict.{str_eq_refl}
use synctv.Base.Int.{ℤ, pos, negsuc}
use synctv.Base.Text.{Text, parse_int, format_int, signed}
use synctv.Base.Text.Laws.{parse_int-decimal, unsigned-decimal}
use synctv.Base.Result.{Result, ok, err, Result-cases}
use synctv.Settings.{
  Hooks, Held, new_setting, update_setting_item_value, hooked, vetted, chained, parse, init,
  SettingTable, remembered, store, stored_if, set,
}
use synctv.Settings.Kinds.{read_int64, int64_hooks}

-- A number of 64 bits.
abbrev pub IsInt64 : ℤ → Type 0
IsInt64 (pos n) = n < 2 ^ 63
IsInt64 (negsuc n) = n < 2 ^ 63

parse_int-format_int : (v : ℤ) → IsInt64 v → parse_int (format_int v) ≡ some v
unfolding format_int parse_int
parse_int-format_int (pos n) h = parse_int-decimal n h
parse_int-format_int (negsuc n) h =
    ap (signed true) (unsigned-decimal (suc n)) ∙ if_true (ltb n (2 ^ 63)) _ _ (ground arith)

read_int64-format_int : (v : ℤ) → IsInt64 v → read_int64 (format_int v) ≡ ok v
unfolding read_int64
read_int64-format_int v h = rw (read_int64, parse_int-format_int v h) refl

module _ {A : Type 0} (hooks : Hooks A) where
  -- What a change that succeeds leaves: the value in memory and its text in the table.
  pub record IsStoredAs (v : A) (h after : Held A) : Type 0 where
    pub value : after.setting.value ≡ v
    pub name : after.setting.name ≡ h.setting.name
    pub row : after.table h.setting.name ≡ some (hooks.print v)

  remembered-IsStoredAs :
      (v : A) (h : Held A) (r : Result (Unit {0}) × SettingTable)
      → (remembered hooks v h r).0 ≡ ok tt
      → (r.0 ≡ ok tt → r.1 h.setting.name ≡ some (hooks.print v))
      → IsStoredAs v h (remembered hooks v h r).1
  remembered-IsStoredAs v h (err x, t) e row = absurd (cc e)
  remembered-IsStoredAs v h (ok x, t) e row = record { value = refl; name = refl; row = row refl }

  update-row :
      (failed : Option String) (table : SettingTable) (name : String) (value : Text)
      → (update_setting_item_value failed table name value).0 ≡ ok tt
      → (update_setting_item_value failed table name value).1 name ≡ some value
  unfolding update_setting_item_value synctv.Db.handle_update_result
  update-row failed table name value e = ground (arith, str_eq_refl name)

  store-IsStoredAs :
      (failed : Option String) (v : A) (h : Held A)
      → (store hooks failed v h).0 ≡ ok tt
      → IsStoredAs v h (store hooks failed v h).1
  unfolding store
  store-IsStoredAs failed v h e =
      let statement = update_setting_item_value failed h.table h.setting.name (hooks.print v) in
      remembered-IsStoredAs v h statement e
        (update-row failed h.table h.setting.name (hooks.print v))

  -- A hook that refuses a value or gives it as it is.
  abbrev pub Checks : Option (A → Result A) → Type 0
  Checks hook = (v w : A) → hooked hook v ≡ ok w → w ≡ v

  stored_if-IsStoredAs :
      (failed : Option String) (v : A) (h : Held A) (r : Result A)
      → ((w : A) → r ≡ ok w → w ≡ v)
      → (stored_if hooks failed r h).0 ≡ ok tt
      → IsStoredAs v h (stored_if hooks failed r h).1
  stored_if-IsStoredAs failed v h (err x) same e = absurd (cc e)
  stored_if-IsStoredAs failed v h (ok w) same e =
      rw (sym (same w refl)) (store-IsStoredAs failed w h e)

  passed-is :
      (v w : A) (hook : Option (A → Result A)) (r : Result A)
      → Checks hook
      → ((x : A) → r ≡ ok x → x ≡ v)
      → chained r (hooked hook) ≡ ok w
      → w ≡ v
  passed-is v w hook (err e) c same k = absurd (cc k)
  passed-is v w hook (ok x) c same k = c x w k ∙ same x refl

  vetted-is :
      (validator : Option (A → Result (Unit {0}))) (v x : A) → vetted validator v ≡ ok x → x ≡ v
  vetted-is none v x e = cc e
  vetted-is (some f) v x e = elim (Result-cases (f v)) [
    | inl (y, k) ↦ ground arith
    | inr (y, k) ↦ ground arith
  ]

  pub set-IsStoredAs :
      (failed : Option String) (v : A) (h : Held A)
      → Checks hooks.before_set
      → (set hooks failed v h).0 ≡ ok tt
      → IsStoredAs v h (set hooks failed v h).1
  unfolding set
  set-IsStoredAs failed v h c e =
      stored_if-IsStoredAs failed v h (chained (vetted hooks.validator v) (hooked hooks.before_set))
        (λ w k.
          passed-is v w hooks.before_set (vetted hooks.validator v) c (vetted-is hooks.validator v)
            k)
        e

  -- What a set value has passed.
  set-vetted :
      (failed : Option String) (v : A) (h : Held A)
      → (set hooks failed v h).0 ≡ ok tt
      → vetted hooks.validator v ≡ ok v
  unfolding set
  set-vetted failed v h e = elim (Result-cases (vetted hooks.validator v)) [
    | inl (x, k) ↦ k ∙ ap ok (vetted-is hooks.validator v x k)
    | inr (x, k) ↦ absurd (
        cc (
          sym (ap (λ r. (stored_if hooks failed (chained r (hooked hooks.before_set)) h).0) k) ∙ e))
  ]

  init-is :
      (name : String) (default v : A)
      → hooks.before_init ≡ none
      → hooks.read (hooks.print v) ≡ ok v
      → vetted hooks.validator v ≡ ok v
      → init hooks (hooks.print v) (new_setting name default)
        ≡ (ok tt, record (new_setting name default) { value = v; inited = true })
  unfolding init parse new_setting
  init-is name default v b r k = rw (b, r, k) refl

-- If the hook before a change only refuses values or passes them as they are, there is no hook
-- before initialising, and setting a number of 64 bits succeeds, then the table has a text under
-- the setting's name from which a new setting of that name is initialised to the value in memory.
pub init-set :
    (validator : Option (ℤ → Result (Unit {0}))) (before_set : Option (ℤ → Result ℤ))
    (after_get : Option (ℤ → ℤ)) (failed : Option String) (v default : ℤ) (h : Held ℤ)
    → let hooks = int64_hooks validator none before_set after_get in
      Checks hooks before_set
      → IsInt64 v
      → (set hooks failed v h).0 ≡ ok tt
      → (text : Text) × ((set hooks failed v h).1.table h.setting.name ≡ some text)
        × (init hooks text (new_setting h.setting.name default) ≡ (
          ok tt,
          record (new_setting h.setting.name default) {
            value = (set hooks failed v h).1.setting.value;
            inited = true;
          },
        ))
unfolding int64_hooks
init-set validator before_set after_get failed v default h c fits e =
    let hooks = int64_hooks validator none before_set after_get in
    let k = set-IsStoredAs hooks failed v h c e in
    (
      format_int v,
      k.row,
      rw k.value (
          init-is hooks h.setting.name default v refl (read_int64-format_int v fits)
            (set-vetted hooks failed v h e)),
    )
