-- ===== src/Build/Order.antt =====
-- Go ranges over a map in any order, so a map is a list of entries up to what is found under each key.
use mathlib.Core.Quot
use mathlib.Core.Quot.{Quot}
use k3c.Prelude.{
  ◌≡◌, refl, sym, ap, subst, ◌∙◌, Bool, true, false, none, some, [], ◌∷◌, ◌++◌, Option-cases, inl,
  inr, if◌then◌else◌, arith,
}
use k3c.Prelude.Text.{Text, codes, ◌==◌, strip_prefix}
use k3c.Prelude.Text.Laws.{strip_prefix_sound}
use k3c.Prelude.Maps.{Map, lookup, insert, lookup-insert, NodupKeys}
use k3c.Build.{Opts, Libraries, insert_all, to_csv, with_hosts, with_pull, frontend_attrs}
use k3c.Build.Attrs.{lookup-insert_all, lookup-insert_all_other, or_else, filename}

-- Two lists that stand for one map, and the maps.
abbrev pub SameMap : Map Text → Map Text → Type 0
SameMap m n = (k : Text) → lookup k m ≡ lookup k n

abbrev pub GoMap : Type 0
GoMap = Quot SameMap

abbrev pub go_map : Map Text → GoMap
go_map m = Quot.mk m

-- A key without the prefix differs from every text that has it.
strip_prefix-none :
    (prefix key k : Text) → strip_prefix prefix key ≡ none → ((prefix ++ k) == key) ≡ false
unfolding strip_prefix ◌==◌
strip_prefix-none [] key k e = cc
strip_prefix-none (c ∷ prefix) [] k e = refl
strip_prefix-none (c ∷ prefix) (d ∷ key) k e = ground (arith, strip_prefix-none prefix key k)

insert-SameMap :
    (k : Text) (v : Text) (m n : Map Text) → SameMap m n → SameMap (insert k v m) (insert k v n)
insert-SameMap k v m n h j =
    lookup-insert j k v m
    ∙ ap (λ o. if k == j then some v else o) (h j)
    ∙ sym (lookup-insert j k v n)

insert_all-SameMap :
    (prefix : Text) (attrs others m n : Map Text)
    → NodupKeys attrs
    → NodupKeys others
    → SameMap attrs others
    → SameMap m n
    → SameMap (insert_all prefix attrs m) (insert_all prefix others n)
insert_all-SameMap prefix attrs others m n a b same h key =
    elim (Option-cases (strip_prefix prefix key)) [
      | inl e ↦
          lookup-insert_all_other prefix key attrs m (λ k. strip_prefix-none prefix key k e)
          ∙ h key
          ∙ sym
              (lookup-insert_all_other prefix key others n (λ k. strip_prefix-none prefix key k e))
      | inr (k, e) ↦
          let at = strip_prefix_sound prefix key k e in
          subst (λ x. lookup x (insert_all prefix attrs m) ≡ lookup x (insert_all prefix others n))
            (sym at)
            (lookup-insert_all prefix k attrs m a
              ∙ ap (λ o. or_else o (lookup (prefix ++ k) m)) (same k)
              ∙ ap (or_else (lookup k others)) (h (prefix ++ k))
              ∙ sym (lookup-insert_all prefix k others n b))
    ]

with_hosts-SameMap :
    (hosts : Text) (m n : Map Text)
    → SameMap m n
    → SameMap (with_hosts hosts m) (with_hosts hosts n)
with_hosts-SameMap [] m n h = h
with_hosts-SameMap (c ∷ hosts) m n h = insert-SameMap (codes "add-hosts") (c ∷ hosts) m n h

with_pull-SameMap :
    (pull : Bool) (m n : Map Text) → SameMap m n → SameMap (with_pull pull m) (with_pull pull n)
with_pull-SameMap false m n h = h
with_pull-SameMap true m n h = insert-SameMap (codes "image-resolve-mode") (codes "pull") m n h

-- The attributes of a build are one map whatever the order in which Go ranges over the arguments and
-- the labels: lists that stand for the same two maps, with each key once, give lists that stand for
-- the same map.
pub frontend_attrs-order :
    (libs : Libraries) (o : Opts) (args label : Map Text)
    → NodupKeys o.args
    → NodupKeys args
    → NodupKeys o.label
    → NodupKeys label
    → SameMap o.args args
    → SameMap o.label label
    → go_map (frontend_attrs libs o)
      ≡ go_map (frontend_attrs libs (record o { args = args; label = label }))
unfolding frontend_attrs
frontend_attrs-order libs o args label a b c d same_args same_label = Quot.sound (
    with_pull-SameMap o.pull _ _ (
      insert-SameMap (codes "filename") (filename o) _ _ (
        with_hosts-SameMap (to_csv libs o.add_hosts) _ _ (
          insert_all-SameMap (codes "label:") o.label label _ _ c d same_label
            (insert_all-SameMap (codes "build-arg:") o.args args _ _ a b same_args (λ k. refl))))))
