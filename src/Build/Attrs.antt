-- ===== src/Build/Attrs.antt =====
-- What the frontend of a build is told.
use k3c.Prelude.{
  ◌≡◌, refl, ap, ◌∙◌, Bool, true, false, Option, none, some, [], ◌∷◌, ◌++◌, if◌then◌else◌, arith,
}
use k3c.Prelude.Text.{Text, codes, is_empty, ◌==◌, eq_iff}
use k3c.Prelude.Maps.{Map, lookup, insert, lookup-insert, NodupKeys}
use k3c.Paths.{base}
use k3c.Build.{Opts, Libraries, insert_all, to_csv, with_hosts, with_pull, frontend_attrs}

same_prefix : (prefix j k : Text) → ((prefix ++ j) == (prefix ++ k)) ≡ (j == k)
unfolding ◌==◌
same_prefix [] j k = refl
same_prefix (c ∷ prefix) j k = ground (arith, same_prefix prefix j k)

-- A key that does not have the prefix is not touched.
pub lookup-insert_all_other :
    (prefix key : Text) (attrs m : Map Text)
    → ((k : Text) → ((prefix ++ k) == key) ≡ false)
    → lookup key (insert_all prefix attrs m) ≡ lookup key m
unfolding insert_all
lookup-insert_all_other prefix key [] m h = refl
lookup-insert_all_other prefix key ((k, v) ∷ attrs) m h =
    lookup-insert_all_other prefix key attrs (insert (prefix ++ k) v m) h
    ∙ lookup-insert key (prefix ++ k) v m
    ∙ rw (h k) refl

abbrev pub or_else : Option Text → Option Text → Option Text
or_else none other = other
or_else (some v) other = some v

none_after_or_else : (o : Option Text) → or_else o none ≡ o
none_after_or_else none = refl
none_after_or_else (some v) = refl

pub lookup-insert_all :
    (prefix key : Text) (attrs m : Map Text)
    → NodupKeys attrs
    → lookup (prefix ++ key) (insert_all prefix attrs m)
      ≡ or_else (lookup key attrs) (lookup (prefix ++ key) m)
unfolding insert_all lookup
lookup-insert_all prefix key [] m h = refl
lookup-insert_all prefix key ((k, v) ∷ attrs) m (h, hs) =
    lookup-insert_all prefix key attrs (insert (prefix ++ k) v m) hs
    ∙ ground (
      arith,
      h,
      lookup-insert (prefix ++ key) (prefix ++ k) v m,
      same_prefix prefix k key,
      eq_iff k key,
    )

lookup-with_hosts :
    (key hosts : Text) (m : Map Text)
    → (codes "add-hosts" == key) ≡ false
    → lookup key (with_hosts hosts m) ≡ lookup key m
lookup-with_hosts key [] m h = refl
lookup-with_hosts key (c ∷ hosts) m h =
    lookup-insert key (codes "add-hosts") (c ∷ hosts) m ∙ rw h refl

lookup-with_pull :
    (key : Text) (pull : Bool) (m : Map Text)
    → (codes "image-resolve-mode" == key) ≡ false
    → lookup key (with_pull pull m) ≡ lookup key m
lookup-with_pull key false m h = refl
lookup-with_pull key true m h =
    lookup-insert key (codes "image-resolve-mode") (codes "pull") m ∙ rw h refl

-- The Dockerfile's name, and the keys that are neither an argument nor a label.
abbrev pub filename : Opts → Text
filename o = if is_empty o.dockerfile then codes "Dockerfile" else base o.dockerfile

abbrev pub hosts_of : Text → Option Text
hosts_of hosts = if is_empty hosts then none else some hosts

added_hosts :
    (hosts : Text) (m : Map Text)
    → lookup (codes "add-hosts") m ≡ none
    → lookup (codes "add-hosts") (with_hosts hosts m) ≡ hosts_of hosts
unfolding ◌==◌
added_hosts [] m h = h
added_hosts (c ∷ hosts) m h = lookup-insert (codes "add-hosts") (codes "add-hosts") (c ∷ hosts) m

module _ (libs : Libraries) (o : Opts) where
  abbrev with_labels : Map Text
  with_labels =
      insert_all (codes "label:") o.label
        (insert_all (codes "build-arg:") o.args (insert (codes "target") o.target []))

  lookup-frontend_attrs :
      (key : Text)
      → (codes "add-hosts" == key) ≡ false
      → (codes "image-resolve-mode" == key) ≡ false
      → (codes "filename" == key) ≡ false
      → lookup key (frontend_attrs libs o) ≡ lookup key with_labels
  unfolding frontend_attrs
  lookup-frontend_attrs key hosts pull file =
      lookup-with_pull key o.pull _ pull
      ∙ lookup-insert key (codes "filename") (filename o) _
      ∙ rw file (lookup-with_hosts key (to_csv libs o.add_hosts) with_labels hosts)

  lookup-arg :
      (k : Text)
      → NodupKeys o.args
      → lookup (codes "build-arg:" ++ k) (frontend_attrs libs o) ≡ lookup k o.args
  unfolding ◌==◌ lookup insert
  lookup-arg k args =
      lookup-frontend_attrs (codes "build-arg:" ++ k) refl refl refl
      ∙ lookup-insert_all_other (codes "label:") (codes "build-arg:" ++ k) o.label _ (λ j. refl)
      ∙ lookup-insert_all (codes "build-arg:") k o.args _ args
      ∙ none_after_or_else (lookup k o.args)

  lookup-label :
      (k : Text)
      → NodupKeys o.label
      → lookup (codes "label:" ++ k) (frontend_attrs libs o) ≡ lookup k o.label
  unfolding ◌==◌ lookup insert
  lookup-label k labels =
      lookup-frontend_attrs (codes "label:" ++ k) refl refl refl
      ∙ lookup-insert_all (codes "label:") k o.label _ labels
      ∙ ap (or_else (lookup k o.label))
          (lookup-insert_all_other (codes "build-arg:") (codes "label:" ++ k) o.args _ (λ j. refl))
      ∙ none_after_or_else (lookup k o.label)

  lookup-target : lookup (codes "target") (frontend_attrs libs o) ≡ some o.target
  unfolding ◌==◌ lookup insert
  lookup-target =
      lookup-frontend_attrs (codes "target") refl refl refl
      ∙ lookup-insert_all_other (codes "label:") (codes "target") o.label _ (λ j. refl)
      ∙ lookup-insert_all_other (codes "build-arg:") (codes "target") o.args _ (λ j. refl)

  lookup-filename : lookup (codes "filename") (frontend_attrs libs o) ≡ some (filename o)
  unfolding frontend_attrs ◌==◌
  lookup-filename =
      lookup-with_pull (codes "filename") o.pull _ refl
      ∙ lookup-insert (codes "filename") (codes "filename") (filename o) _

  lookup-labels_hosts : lookup (codes "add-hosts") with_labels ≡ none
  unfolding ◌==◌ lookup insert
  lookup-labels_hosts =
      lookup-insert_all_other (codes "label:") (codes "add-hosts") o.label _ (λ j. refl)
      ∙ lookup-insert_all_other (codes "build-arg:") (codes "add-hosts") o.args _ (λ j. refl)

  lookup-hosts :
      lookup (codes "add-hosts") (frontend_attrs libs o) ≡ hosts_of (libs.csv_write o.add_hosts).0
  unfolding frontend_attrs to_csv ◌==◌
  lookup-hosts =
      lookup-with_pull (codes "add-hosts") o.pull _ refl
      ∙ lookup-insert (codes "add-hosts") (codes "filename") (filename o) _
      ∙ added_hosts (libs.csv_write o.add_hosts).0 with_labels lookup-labels_hosts

  -- The frontend of a build is told each argument and each label under its own name, the target and
  -- the name of the Dockerfile. Of the hosts it is told what the csv Writer has passed on before it is
  -- flushed, and nothing where that is nothing.
  pub frontend_attrs_lem :
      NodupKeys o.args
      → NodupKeys o.label
      → ((k : Text)
          → (lookup (codes "build-arg:" ++ k) (frontend_attrs libs o) ≡ lookup k o.args)
            × (lookup (codes "label:" ++ k) (frontend_attrs libs o) ≡ lookup k o.label))
        × (lookup (codes "target") (frontend_attrs libs o) ≡ some o.target)
        × (lookup (codes "filename") (frontend_attrs libs o) ≡ some (filename o))
        × (lookup (codes "add-hosts") (frontend_attrs libs o)
            ≡ hosts_of (libs.csv_write o.add_hosts).0)
  frontend_attrs_lem args labels = (
    (λ k. (lookup-arg k args, lookup-label k labels)),
    lookup-target,
    lookup-filename,
    lookup-hosts,
  )
