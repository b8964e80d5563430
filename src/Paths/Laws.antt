-- ===== src/Paths/Laws.antt =====
-- Joining one plain component to a path.
use mathlib.Core.List.{append_assoc, append_cancel_left, foldl, foldl-append, reverse, reverse-cons}
use k3c.Prelude.{
  ℕ, ◌≡◌, ◌≢◌, refl, ap, ◌∙◌, Bool, true, false, List, [], ◌∷◌, ◌++◌, arith, eqb, ◌||◌, inl, inr,
  sym, Option-cases, Bool-cases,
}
use k3c.Prelude.Text.{
  Text, codes, contains, ◌==◌, is_empty, eq_iff, eq_refl, has_prefix, strip_prefix,
}
use k3c.Prelude.Text.Laws.{strip_prefix_sound}
use k3c.Paths.{
  in_front, split, push_component, is_rooted, components, join_slash, render, clean, join,
  last_component, base,
}

-- A name that may stand as a component: not empty, no slash, and neither "." nor "..".
pub record IsComponent (c : Text) : Type 0 where
  pub not_empty : is_empty c ≡ false
  pub no_slash : contains c b'/' ≡ false
  pub not_dot : (c == codes ".") ≡ false
  pub not_dots : (c == codes "..") ≡ false

split_absent : (c : Text) → contains c b'/' ≡ false → split c ≡ c ∷ []
unfolding split contains
split_absent [] h = refl
split_absent (a ∷ c) h = ground (arith, split_absent c)

in_front-append :
    (a : ℕ) (ps : List Text) (c : Text)
    → ps ≢ []
    → in_front a (ps ++ c ∷ []) ≡ in_front a ps ++ c ∷ []
in_front-append a [] c h = absurd (h refl)
in_front-append a (p ∷ ps) c h = refl

split-ne-nil : (s : Text) → split s ≢ []
unfolding split
split-ne-nil [] e = cc
split-ne-nil (a ∷ s) e = ground (arith, split-ne-nil s)

pub split-append :
    (s c : Text) → contains c b'/' ≡ false → split (s ++ b'/' ∷ c) ≡ split s ++ c ∷ []
unfolding split
split-append [] c h = rw (split_absent c h) refl
split-append (a ∷ s) c h =
    ground (arith, split-append s c h, in_front-append a (split s) c (split-ne-nil s))

push_component_plain :
    (rooted : Bool) (stack : List Text) (c : Text)
    → IsComponent c
    → push_component rooted stack c ≡ c ∷ stack
unfolding push_component
push_component_plain rooted stack c h = rw (h.not_empty, h.not_dot, h.not_dots) refl

components-append :
    (rooted : Bool) (s c : Text)
    → IsComponent c
    → components rooted (s ++ b'/' ∷ c) ≡ c ∷ components rooted s
unfolding components
components-append rooted s c h =
    rw (split-append s c h.no_slash, foldl-append)
      (push_component_plain rooted (foldl (push_component rooted) [] (split s)) c h)

-- The clean components of a path, first one first.
abbrev pub parts : Text → List Text
parts s = reverse (components (is_rooted s) s)

pub clean-eq-render : (s : Text) → clean s ≡ render (is_rooted s) (parts s)
unfolding clean
clean-eq-render s = refl

components_plain : (c : Text) → IsComponent c → components false c ≡ c ∷ []
unfolding components
components_plain c h = rw (split_absent c h.no_slash) (push_component_plain false [] c h)

components_nil : components false [] ≡ []
unfolding components split push_component
components_nil = refl

no_slash-head : (b : ℕ) (c : Text) → contains (b ∷ c) b'/' ≡ false → eqb b b'/' ≡ false
unfolding contains
no_slash-head b c h = ground arith

-- Joining a plain component puts it behind the components of the cleaned path.
pub join_component :
    (s c : Text) → IsComponent c → join s c ≡ render (is_rooted s) (parts s ++ c ∷ [])
unfolding join clean
join_component s [] h = cc (h.not_empty)
join_component [] (b ∷ c) h =
    rw (no_slash-head b c h.no_slash, components_plain (b ∷ c) h, components_nil) refl
join_component (a ∷ s) (b ∷ c) h =
    rw (components-append (eqb a b'/') (a ∷ s) (b ∷ c) h, reverse-cons) refl

last_component-append :
    (d : Text) (cs : List Text) (c : Text)
    → is_empty c ≡ false
    → last_component d (cs ++ c ∷ []) ≡ c
last_component-append d [] c h = rw h refl
last_component-append d (b ∷ cs) c h = last_component-append _ cs c h

base-append : (s c : Text) → IsComponent c → base (s ++ b'/' ∷ c) ≡ c
unfolding base
base-append [] c h =
    rw (split-append [] c h.no_slash) (last_component-append (codes "/") (split []) c h.not_empty)
base-append (a ∷ s) c h =
    rw (split-append (a ∷ s) c h.no_slash) (last_component-append _ (split (a ∷ s)) c h.not_empty)

base_plain : (c : Text) → IsComponent c → base c ≡ c
unfolding base
base_plain [] h = cc (h.not_empty)
base_plain (b ∷ c) h = rw (split_absent (b ∷ c) h.no_slash) refl

join_slash-append :
    (d : Text) (cs : List Text) (c : Text)
    → join_slash ((d ∷ cs) ++ c ∷ []) ≡ join_slash (d ∷ cs) ++ b'/' ∷ c
join_slash-append d [] c = refl
join_slash-append d (e ∷ cs) c = rw (join_slash-append e cs c, append_assoc) refl

base-render :
    (rooted : Bool) (cs : List Text) (c : Text)
    → IsComponent c
    → base (render rooted (cs ++ c ∷ [])) ≡ c
base-render true [] c h = base-append [] c h
base-render false [] c h = base_plain c h
base-render true (d ∷ cs) c h =
    rw (join_slash-append d cs c) (base-append (b'/' ∷ join_slash (d ∷ cs)) c h)
base-render false (d ∷ cs) c h =
    rw (join_slash-append d cs c) (base-append (join_slash (d ∷ cs)) c h)

-- The base of a path that a plain component was joined to is that component.
pub base-join : (s c : Text) → IsComponent c → base (join s c) ≡ c
base-join s c h = rw (join_component s c h) (base-render (is_rooted s) (parts s) c h)

-- What stands before the last component.
abbrev pub dir_prefix : Bool → List Text → Text
dir_prefix true [] = b'/' ∷ []
dir_prefix false [] = []
dir_prefix true (d ∷ cs) = b'/' ∷ (join_slash (d ∷ cs) ++ b'/' ∷ [])
dir_prefix false (d ∷ cs) = join_slash (d ∷ cs) ++ b'/' ∷ []

render-append :
    (rooted : Bool) (cs : List Text) (c : Text)
    → render rooted (cs ++ c ∷ []) ≡ dir_prefix rooted cs ++ c
render-append true [] c = refl
render-append false [] c = refl
render-append true (d ∷ cs) c = rw (join_slash-append d cs c, append_assoc) refl
render-append false (d ∷ cs) c = rw (join_slash-append d cs c, append_assoc) refl

-- Joining a plain component is writing it behind a text that depends on the directory alone.
pub join-eq-append :
    (s c : Text) → IsComponent c → join s c ≡ dir_prefix (is_rooted s) (parts s) ++ c
join-eq-append s c h = join_component s c h ∙ render-append (is_rooted s) (parts s) c

-- Whether `q` is `p` or lies under it.
unfoldable pub is_within : Text → Text → Bool
is_within p q = p == q || has_prefix q (p ++ b'/' ∷ [])

has_prefix_sound : (q p : Text) → has_prefix q p ≡ true → (r : Text) × (q ≡ p ++ r)
unfolding has_prefix
has_prefix_sound q p h = elim (Option-cases (strip_prefix p q)) [
  | inl e ↦ cc (rw e at h)
  | inr (r, e) ↦ (r, strip_prefix_sound p q r e)
]

contains-slash : (c r : Text) → contains (c ++ b'/' ∷ r) b'/' ≡ true
unfolding contains
contains-slash [] r = refl
contains-slash (a ∷ c) r = ground (arith, contains-slash c r)

pub join_same : (s c k : Text) → IsComponent c → IsComponent k → (join s c == join s k) ≡ (c == k)
join_same s c k hc hk = elim (Bool-cases (c == k)) [
  | inl e ↦ let same : c ≡ k = (eq_iff c k).0 e in rw (e, ← same) (eq_refl (join s c))
  | inr e ↦
      let differ : join s c ≢ join s k =
        λ p. cc (e, (eq_iff c k).1 (sym (base-join s c hc) ∙ ap base p ∙ base-join s k hk)) in
      ground (arith, e, eq_iff (join s c) (join s k), differ)
]

not_under :
    (s c k : Text)
    → IsComponent c
    → IsComponent k
    → has_prefix (join s k) (join s c ++ b'/' ∷ []) ≡ false
not_under s c k hc hk = elim (Bool-cases (has_prefix (join s k) (join s c ++ b'/' ∷ []))) [
  | inr e ↦ e
  | inl e ↦
      let (r, q) = has_prefix_sound (join s k) (join s c ++ b'/' ∷ []) e in
      let front = dir_prefix (is_rooted s) (parts s) in
      let same : front ++ k ≡ front ++ (c ++ b'/' ∷ r) =
        sym (join-eq-append s k hk)
        ∙ q
        ∙ rw (join-eq-append s c hc, append_assoc, append_assoc) refl in
      let tail : k ≡ c ++ b'/' ∷ r = append_cancel_left front k (c ++ b'/' ∷ r) same in
      cc (hk.no_slash, ap (λ (t : Text). contains t b'/') tail, contains-slash c r)
]

-- Siblings do not lie within one another.
pub is_within-join :
    (s c k : Text) → IsComponent c → IsComponent k → is_within (join s c) (join s k) ≡ (c == k)
unfolding is_within
is_within-join s c k hc hk = rw (not_under s c k hc hk, join_same s c k hc hk) (ground arith)
