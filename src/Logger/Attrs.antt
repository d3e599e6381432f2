-- ===== src/Logger/Attrs.antt =====
-- Attributes and groups that a logger carries.
use mathlib.Core.List.{append_assoc}
use tempcdn.Prelude.{◌≡◌, ◌∙◌, ap, sym, refl, List, [], ◌∷◌, ◌++◌, map}
use tempcdn.Text.{Text, lit}
use tempcdn.Http.Registry.{join}
use tempcdn.Logger.{
  Attr, Record, PrettyHandler, Formats, field_key, write_fields, handle, with_attrs, with_group,
}

-- The attribute with the name of a group before its key.
abbrev pub in_group : Text → Attr → Attr
in_group name a = record a { key = name ++ lit "." ++ a.key }

-- The names of the groups with one more at the end.
join-snoc :
    (g : Text) (groups : List Text) (name : Text)
    → join (lit ".") (g ∷ (groups ++ name ∷ [])) ≡ join (lit ".") (g ∷ groups) ++ lit "." ++ name
unfolding join
join-snoc g [] name = refl
join-snoc g (h ∷ groups) name =
    let before = g ++ lit "." in
    let rest = join (lit ".") (h ∷ groups) in
    ap (λ t. before ++ t) (join-snoc h groups name)
    ∙ sym (append_assoc before (rest ++ lit ".") name)
    ∙ ap (λ t. t ++ name) (sym (append_assoc before rest (lit ".")))

module _ (f : Formats) where
  field_key-snoc :
      (groups : List Text) (name key : Text)
      → field_key f (groups ++ name ∷ []) key ≡ field_key f groups (name ++ lit "." ++ key)
  unfolding field_key join
  field_key-snoc [] name key = refl
  field_key-snoc (g ∷ groups) name key =
      let before = join (lit ".") (g ∷ groups) ++ lit "." in
      ap (λ t. t ++ lit "." ++ key) (join-snoc g groups name)
      ∙ ap (λ t. t ++ key) (append_assoc before name (lit "."))
      ∙ append_assoc before (name ++ lit ".") key

  write_fields-snoc :
      (groups : List Text) (name : Text) (attrs : List Attr)
      → write_fields f (groups ++ name ∷ []) attrs
        ≡ write_fields f groups (map (in_group name) attrs)
  unfolding write_fields
  write_fields-snoc groups name [] = refl
  write_fields-snoc groups name (a ∷ attrs) =
      rw (field_key-snoc groups name a.key, write_fields-snoc groups name attrs) refl

  -- Attributes that a logger was given write what they would write as the first ones of the record;
  -- and a group that a logger was given after them writes what the logger without the group would
  -- write if the name of the group and a dot stood before the keys of all attributes, those that the
  -- logger was given before the group included.
  pub handle-with_attrs :
      (h : PrettyHandler) (name : Text) (carried attrs : List Attr) (r : Record)
      → (handle f (with_attrs carried h) (record r { attrs = attrs })
          ≡ handle f h (record r { attrs = carried ++ attrs }))
        × (handle f (with_group name (with_attrs carried h)) (record r { attrs = attrs })
            ≡ handle f
                (record h { attrs = [] })
                (record r { attrs = map (in_group name) (h.attrs ++ carried ++ attrs) }))
  unfolding handle with_attrs with_group
  handle-with_attrs h name carried attrs r = (
    rw (append_assoc h.attrs carried attrs) refl,
    rw (write_fields-snoc h.groups name (h.attrs ++ carried ++ attrs)) refl,
  )
