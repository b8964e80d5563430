-- ===== src/Table/Laws.antt =====
-- What a list of objects prints: the header, the rows and what the tab writer holds back, until one of
-- them fails.
use k3c.Prelude.{
  ◌≡◌, refl, sym, ap, ◌∙◌, Bool, true, false, not, ◌&&◌, ◌||◌, Bool-cases, inl, inr, Option, none,
  some, List, [], ◌∷◌, if◌then◌else◌,
}
use k3c.Prelude.Text.{Text, codes, is_empty, ◌==◌}
use k3c.Prelude.Results.{Error}
use k3c.Table.{
  Config, Writer, new_writer, with_format, Output, no_data, is_failed, stored, put_value,
  write_value, write_header, write, write_all, closing, close,
}

module _ {S : Type 0} where
  -- What follows where there is no error.
  abbrev pub chain : Option Error × S → (S → Option Error × S) → Option Error × S
  chain (none, s) next = next s
  chain (some e, s) next = (some e, s)

-- A writer as NewWriter makes it.
record IsNew (t : Writer) : Type 0 where
  not_closed : t.closed ≡ false
  no_error : t.error ≡ none
  not_printed : t.header_printed ≡ false

with_format-IsNew : (format : Text) (t : Writer) → IsNew t → IsNew (with_format format t)
with_format-IsNew format t n = elim (Bool-cases (is_empty format || format == codes "raw")) [
  | inl h ↦ rw h n
  | inr h ↦
      rw h
        (record { not_closed = n.not_closed; no_error = n.no_error; not_printed = n.not_printed })
]

new_writer-IsNew :
    (values : List (Text × Text)) (config : Config) → IsNew (new_writer values config)
unfolding new_writer
new_writer-IsNew values config =
    with_format-IsNew config.format _
      (record { not_closed = refl; no_error = refl; not_printed = refl })

module _ {S O M : Type 0} (out : Output S O M) where
  abbrev pub header : Writer → S → Option Error × S
  header t s = if is_empty t.header_format then (none, s) else out.execute t.header_format no_data s

  abbrev pub rows : Text → List O → S → Option Error × S
  rows format [] s = (none, s)
  rows format (obj ∷ objs) s = chain (put_value out format obj s) (rows format objs)

  abbrev pub end : Bool → S → Option Error × S
  end tabbed s = if tabbed then out.flush s else (none, s)

  abbrev pub table : Writer → List O → S → Option Error × S
  table t objs s = chain (header t s) (λ s1. chain (rows t.value_format objs s1) (end t.tabbed))

  -- The error of Close, and the output then.
  abbrev pub ended : Writer × S → Option Error × S
  ended x = ((close out x.0 x.1).0, (close out x.0 x.1).1.1)

  close_failed : (t : Writer) (s : S) → is_failed t.error ≡ true → ended (t, s) ≡ (t.error, s)
  unfolding close
  close_failed t s h = elim (Bool-cases t.closed) [
    | inl c ↦ rw (c, close) refl
    | inr c ↦ rw (c, close) (rw (h, close) refl)
  ]

  -- A writer that has no header to print any more.
  record IsReady (t : Writer) : Type 0 where
    no_header : (not (is_empty t.header_format) && not t.header_printed) ≡ false
    not_closed : t.closed ≡ false
    no_error : t.error ≡ none

  ended_flush :
      (t : Writer) (s : S)
      → (
        (closing out (record t { error = none }, s)).0,
        (closing out (record t { error = none }, s)).1.1,
      )
        ≡ end t.tabbed s
  ended_flush t s = elim (Bool-cases t.tabbed) [ inl c ↦ rw c refl | inr c ↦ rw c refl ]

  close_ready : (t : Writer) (s : S) → IsReady t → ended (t, s) ≡ end t.tabbed s
  unfolding close write_header
  close_ready t s r =
      rw (r.not_closed, close)
        (rw (r.no_error, close) (rw (r.no_header, write_header) (ended_flush t s)))

  write_failed :
      (obj : O) (t : Writer) (s : S) → is_failed t.error ≡ true → write out obj t s ≡ (t, s)
  unfolding write
  write_failed obj t s h = rw (h, write) refl

  write_ready :
      (obj : O) (t : Writer) (s : S)
      → IsReady t
      → write out obj t s ≡ stored out t (put_value out t.value_format obj s)
  unfolding write write_header
  write_ready obj t s r = rw (r.no_error, write) (rw (r.no_header, write_header) refl)

  -- The error after all objects are written and the writer is closed, and the output then.
  abbrev pub listed : List O → Writer × S → Option Error × S
  listed objs x = ended (write_all out objs x.0 x.1)

  listed_failed :
      (objs : List O) (t : Writer) (s : S)
      → is_failed t.error ≡ true
      → listed objs (t, s) ≡ (t.error, s)
  unfolding write_all
  listed_failed [] t s h = close_failed t s h
  listed_failed (obj ∷ objs) t s h =
      ap (listed objs) (write_failed obj t s h) ∙ listed_failed objs t s h

  -- After a value, with what the rest of the list prints where it went well.
  listed_value :
      (objs : List O) (t : Writer) (p : Option Error × S)
      → ((s : S)
          → listed objs (record t { error = none }, s)
            ≡ chain (rows t.value_format objs s) (end t.tabbed))
      → listed objs (stored out t p) ≡ chain (chain p (rows t.value_format objs)) (end t.tabbed)
  listed_value objs t (none, s) rest = rest s
  listed_value objs t (some e, s) rest = listed_failed objs (record t { error = some e }) s refl

  listed_ready :
      (objs : List O) (t : Writer) (s : S)
      → IsReady t
      → listed objs (t, s) ≡ chain (rows t.value_format objs s) (end t.tabbed)
  unfolding write_all
  listed_ready [] t s r = close_ready t s r
  listed_ready (obj ∷ objs) t s r =
      ap (listed objs) (write_ready obj t s r)
      ∙ listed_value objs t (put_value out t.value_format obj s) (λ s'.
        listed_ready objs (record t { error = none }) s'
          (record { no_header = r.no_header; not_closed = r.not_closed; no_error = refl }))

  -- A writer that has its header to print.
  record IsFresh (t : Writer) : Type 0 where
    has_header : is_empty t.header_format ≡ false
    not_printed : t.header_printed ≡ false
    not_closed : t.closed ≡ false
    no_error : t.error ≡ none

  abbrev printed : Writer → Writer
  printed t = record t { header_printed = true }

  write_header_fresh :
      (t : Writer) (s : S)
      → IsFresh t
      → write_header out t s ≡ stored out (printed t) (out.execute t.header_format no_data s)
  unfolding write_header
  write_header_fresh t s f = rw (f.has_header, write_header) (rw (f.not_printed, write_header) refl)

  printed-IsReady :
      (t : Writer) → IsFresh t → IsReady (record t { header_printed = true; error = none })
  printed-IsReady t f = record {
    no_header = rw f.has_header refl;
    not_closed = f.not_closed;
    no_error = refl;
  }

  write_after_header :
      (obj : O) (t : Writer) (q : Option Error × S)
      → IsFresh t
      → write_value out obj (stored out (printed t) q)
        ≡ write out obj (stored out (printed t) q).0 (stored out (printed t) q).1
  write_after_header obj t (none, s) f =
      sym
        (write_ready obj (record t { header_printed = true; error = none }) s (printed-IsReady t f))
  write_after_header obj t (some e, s) f =
      sym (write_failed obj (record t { header_printed = true; error = some e }) s refl)

  close_after_header :
      (t : Writer) (q : Option Error × S)
      → IsFresh t
      → ((closing out (stored out (printed t) q)).0, (closing out (stored out (printed t) q)).1.1)
        ≡ ended (stored out (printed t) q)
  close_after_header t (none, s) f =
      let t1 = record t { header_printed = true; error = none } in
      ended_flush t1 s ∙ sym (close_ready t1 s (printed-IsReady t f))
  close_after_header t (some e, s) f =
      sym (close_failed (record t { header_printed = true; error = some e }) s refl)

  write_open :
      (obj : O) (t : Writer) (s : S)
      → is_failed t.error ≡ false
      → write out obj t s ≡ write_value out obj (write_header out t s)
  unfolding write
  write_open obj t s h = rw (h, write) refl

  close_open :
      (t : Writer) (s : S)
      → t.closed ≡ false
      → is_failed t.error ≡ false
      → close out t s ≡ closing out (write_header out t s)
  unfolding close
  close_open t s c h = rw (c, close) (rw (h, close) refl)

  -- A list of objects after the header.
  listed_after_header :
      (objs : List O) (t : Writer) (s : S)
      → IsFresh t
      → listed objs (t, s)
        ≡ listed objs (stored out (printed t) (out.execute t.header_format no_data s))
  unfolding write_all
  listed_after_header [] t s f =
      ap (λ x. (x.0, x.1.1)) (close_open t s f.not_closed (ap is_failed f.no_error))
      ∙ ap (λ x. ((closing out x).0, (closing out x).1.1)) (write_header_fresh t s f)
      ∙ close_after_header t (out.execute t.header_format no_data s) f
  listed_after_header (obj ∷ objs) t s f = ap (listed objs) (
      write_open obj t s (ap is_failed f.no_error)
      ∙ ap (write_value out obj) (write_header_fresh t s f)
      ∙ write_after_header obj t (out.execute t.header_format no_data s) f)

  listed_header :
      (objs : List O) (t : Writer) (q : Option Error × S)
      → IsFresh t
      → listed objs (stored out (printed t) q)
        ≡ chain q (λ s1. chain (rows t.value_format objs s1) (end t.tabbed))
  listed_header objs t (none, s) f =
      listed_ready objs (record t { header_printed = true; error = none }) s (printed-IsReady t f)
  listed_header objs t (some e, s) f =
      listed_failed objs (record t { header_printed = true; error = some e }) s refl

  listed-table_new :
      (objs : List O) (t : Writer) (s : S) → IsNew t → listed objs (t, s) ≡ table t objs s
  listed-table_new objs t s n = elim (Bool-cases (is_empty t.header_format)) [
    | inl h ↦
        listed_ready objs t s
          (record { no_header = rw h refl; not_closed = n.not_closed; no_error = n.no_error })
        ∙ rw h refl
    | inr h ↦
        let fresh : IsFresh t = record {
          has_header = h;
          not_printed = n.not_printed;
          not_closed = n.not_closed;
          no_error = n.no_error;
        } in
        listed_after_header objs t s fresh
        ∙ listed_header objs t (out.execute t.header_format no_data s) fresh
        ∙ rw h refl
  ]

  -- A list of objects through a new writer prints the header, if the writer has one, then a row for
  -- each object in order, and then what the tab writer holds back; at the first of these that fails
  -- it stops, and Close answers that error. The header comes also where there is no object.
  pub listed-table :
      (values : List (Text × Text)) (config : Config) (objs : List O) (s : S)
      → listed objs (new_writer values config, s) ≡ table (new_writer values config) objs s
  listed-table values config objs s =
      listed-table_new objs (new_writer values config) s (new_writer-IsNew values config)
