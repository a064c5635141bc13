-- ===== src/Go/Json/RoundTrip.antt =====
-- Reading back a tree without numbers from its text, in any layout that adds spaces.
use runtime_class_manager.Base.{
  ℕ, zero, suc, ◌≡◌, refl, sym, ap, ◌∙◌, ◌+◌, ◌≤◌, true, false, none, some, [], ◌∷◌, ◌++◌,
  append_assoc, append-nil, Text, txt, arith, length, length-append,
}
use runtime_class_manager.Go.Strings.{has_prefix}
use runtime_class_manager.Go.Json.Value.{
  Value, null, bool, num, str, arr, obj, Items, nil, cons, Fields, end, field,
}
use runtime_class_manager.Go.Json.Print.{
  Layout, quote_end, print, more_items, more_fields, indented, spaces, marshal_indent,
}
use runtime_class_manager.Go.Json.Parse.{
  skip_spaces, separator, expect, token, after_item, after_field, value, items, fields, whole,
  unmarshal,
}
use runtime_class_manager.Go.Json.Quote.{unquote-quote_end}
use runtime_class_manager.Go.Json.Wordy.{
  IsWordy, AreWordy, FieldsAreWordy, IsBlank, lengths, predecessors, value-array, value-object,
  items-cons, fields-field,
}

module _ (l : Layout) (blank : IsBlank l) where
  -- A value begins neither with a space nor with a closing bracket.
  skip_spaces-print :
      (v : Value) (d : ℕ) (t : Text)
      → IsWordy v
      → (skip_spaces (print l d v ++ t) ≡ print l d v ++ t)
        × (expect b']' (print l d v ++ t) ≡ none)
  unfolding skip_spaces expect print IsWordy txt
  skip_spaces-print null d t h = (refl, refl)
  skip_spaces-print (bool true) d t h = (refl, refl)
  skip_spaces-print (bool false) d t h = (refl, refl)
  skip_spaces-print (num n) d t h = absurd h
  skip_spaces-print (str s) d t h = (refl, refl)
  skip_spaces-print (arr nil) d t h = (refl, refl)
  skip_spaces-print (arr (cons v vs)) d t h = (refl, refl)
  skip_spaces-print (obj end) d t h = (refl, refl)
  skip_spaces-print (obj (field k v fs)) d t h = (refl, refl)

  -- What `value`, `items` and `fields` have to read.
  abbrev ReadsValue : Value → Type 0
  ReadsValue v =
      IsWordy v
      → (d f : ℕ) (s rest : Text) → skip_spaces s ≡ print l d v ++ rest
      → length (print l d v) ≤ f
      → value (suc f) s ≡ some (v, rest)

  abbrev ReadsItems : Items → Type 0
  ReadsItems vs =
      AreWordy vs
      → (v : Value) (d f : ℕ) (rest : Text) → length (more_items l d vs) ≤ f
      → after_item (items f) v (separator b']' (skip_spaces (more_items l d vs ++ rest)))
        ≡ some (cons v vs, rest)

  abbrev ReadsFields : Fields → Type 0
  ReadsFields fs =
      FieldsAreWordy fs
      → (k : Text) (v : Value) (d f : ℕ) (rest : Text) → length (more_fields l d fs) ≤ f
      → after_field (fields f) k v (separator b'}' (skip_spaces (more_fields l d fs ++ rest)))
        ≡ some (field k v fs, rest)

  more_items_pos : (vs : Items) (d : ℕ) → 1 ≤ length (more_items l d vs)
  unfolding more_items
  more_items_pos nil d = omega (arith, length-append (l.line d) (b']' ∷ []))
  more_items_pos (cons v vs) d = omega arith

  more_fields_pos : (fs : Fields) (d : ℕ) → 1 ≤ length (more_fields l d fs)
  unfolding more_fields
  more_fields_pos end d = omega (arith, length-append (l.line d) (b'}' ∷ []))
  more_fields_pos (field k v fs) d = omega arith

  items-print :
      (v : Value) (vs : Items)
      → ReadsValue v
      → ReadsItems vs
      → IsWordy v
      → AreWordy vs
      → (d e f : ℕ) (s rest : Text) → skip_spaces s ≡ print l d v ++ (more_items l e vs ++ rest)
      → length (print l d v) + length (more_items l e vs) + 1 ≤ f
      → items f s ≡ some (cons v vs, rest)
  items-print v vs reads more hv hvs d e f s rest starts fuel =
      let (g, f-suc, enough) =
        predecessors f (length (print l d v)) (omega (arith, more_items_pos vs e)) in
      rw f-suc (
        items-cons (suc g) s (more_items l e vs ++ rest) rest v vs
          (reads hv d g s (more_items l e vs ++ rest) starts enough)
          (more hvs v e (suc g) rest (omega arith)))

  -- A field as it is printed, with what follows it.
  abbrev field_text : ℕ → Text → Value → Text → Text
  field_text d k v t = b'"' ∷ (quote_end k ++ (b':' ∷ (l.gap ++ (print l d v ++ t))))

  fields-print :
      (k : Text) (v : Value) (fs : Fields)
      → ReadsValue v
      → ReadsFields fs
      → IsWordy v
      → FieldsAreWordy fs
      → (d e f : ℕ) (s rest : Text) → skip_spaces s ≡ field_text d k v (more_fields l e fs ++ rest)
      → length (print l d v) + length (more_fields l e fs) + 1 ≤ f
      → fields f s ≡ some (field k v fs, rest)
  unfolding skip_spaces
  fields-print k v fs reads more hv hfs d e f s rest starts fuel =
      let (g, f-suc, enough) =
        predecessors f (length (print l d v)) (omega (arith, more_fields_pos fs e)) in
      let after = more_fields l e fs ++ rest in
      let gap : skip_spaces (l.gap ++ (print l d v ++ after)) ≡ print l d v ++ after =
        blank.gap-IsBlank (print l d v ++ after) ∙ (skip_spaces-print v d after hv).0 in
      rw f-suc (
        fields-field (suc g) s (quote_end k ++ (b':' ∷ (l.gap ++ (print l d v ++ after))))
          (b':' ∷ (l.gap ++ (print l d v ++ after))) (l.gap ++ (print l d v ++ after)) after rest k
          v fs starts (unquote-quote_end k (b':' ∷ (l.gap ++ (print l d v ++ after)))) refl
          (reads hv d g (l.gap ++ (print l d v ++ after)) after gap enough)
          (more hfs k v e (suc g) rest (omega arith)))

  length-field_text :
      (d : ℕ) (k : Text) (v : Value) (t : Text)
      → length (print l d v) + length t + 2 ≤ length (field_text d k v t)
  length-field_text d k v t = omega (
    arith,
    length-append (quote_end k) (b':' ∷ (l.gap ++ (print l d v ++ t))),
    length-append l.gap (print l d v ++ t),
    length-append (print l d v) t,
  )

  -- Behind what starts a line, a value and a field stand as they are printed.
  line-print :
      (v : Value) (d : ℕ) (t rest : Text)
      → IsWordy v
      → skip_spaces ((l.line d ++ (print l d v ++ t)) ++ rest) ≡ print l d v ++ (t ++ rest)
  line-print v d t rest h =
      rw (append_assoc, append_assoc)
        (blank.line-IsBlank d (print l d v ++ (t ++ rest))
          ∙ (skip_spaces-print v d (t ++ rest) h).0)

  line-field_text :
      (k : Text) (v : Value) (d : ℕ) (t rest : Text)
      → skip_spaces ((l.line d ++ field_text d k v t) ++ rest) ≡ field_text d k v (t ++ rest)
  unfolding skip_spaces
  line-field_text k v d t rest =
      let cut : field_text d k v t ++ rest ≡ field_text d k v (t ++ rest) = simp append_assoc in
      ap skip_spaces (append_assoc (l.line d) (field_text d k v t) rest)
      ∙ (blank.line-IsBlank d (field_text d k v t ++ rest) ∙ ap skip_spaces cut)

  value-items :
      (v : Value) (vs : Items) → ReadsValue v → ReadsItems vs → ReadsValue (arr (cons v vs))
  unfolding print IsWordy
  value-items v vs reads more h d f s rest e fuel =
      let starts = line-print v (suc d) (more_items l d vs) rest h.0 in
      value-array f s _ rest (cons v vs) e
        (rw starts (skip_spaces-print v (suc d) (more_items l d vs ++ rest) h.0).1)
        (items-print v vs reads more h.0 h.1 (suc d) d f _ rest starts (omega lengths))

  items-items : (w : Value) (ws : Items) → ReadsValue w → ReadsItems ws → ReadsItems (cons w ws)
  unfolding more_items IsWordy skip_spaces separator after_item
  items-items w ws reads more h v d f rest fuel =
      let starts = line-print w (suc d) (more_items l d ws) rest h.0 in
      rw
        (items-print w ws reads more h.0 h.1 (suc d) d f
          ((l.line (suc d) ++ (print l (suc d) w ++ more_items l d ws)) ++ rest) rest starts
          (omega lengths))
        refl

  value-fields :
      (k : Text) (v : Value) (fs : Fields)
      → ReadsValue v
      → ReadsFields fs
      → ReadsValue (obj (field k v fs))
  unfolding print IsWordy expect
  value-fields k v fs reads more h d f s rest e fuel =
      let starts = line-field_text k v (suc d) (more_fields l d fs) rest in
      value-object f s _ rest (field k v fs) e (rw starts refl) (
        fields-print k v fs reads more h.0 h.1 (suc d) d f _ rest starts
          (omega (lengths, length-field_text (suc d) k v (more_fields l d fs))))

  fields-fields :
      (j : Text) (w : Value) (gs : Fields)
      → ReadsValue w
      → ReadsFields gs
      → ReadsFields (field j w gs)
  unfolding more_fields IsWordy skip_spaces separator after_field
  fields-fields j w gs reads more h k v d f rest fuel =
      let starts = line-field_text j w (suc d) (more_fields l d gs) rest in
      rw
        (fields-print j w gs reads more h.0 h.1 (suc d) d f
          ((l.line (suc d) ++ field_text (suc d) j w (more_fields l d gs)) ++ rest) rest starts
          (omega (lengths, length-field_text (suc d) j w (more_fields l d gs))))
        refl

  mutual
    unfolding print more_items more_fields value token after_item after_field separator skip_spaces
        expect IsWordy txt has_prefix

    reads_value : (v : Value) → ReadsValue v
    reads_value null = λ h d f s rest e fuel. rw (e, value) refl
    reads_value (bool true) = λ h d f s rest e fuel. rw (e, value) refl
    reads_value (bool false) = λ h d f s rest e fuel. rw (e, value) refl
    reads_value (num n) = λ h d f s rest e fuel. absurd h
    reads_value (str t) =
        λ h d f s rest e fuel. rw (e, value) (rw (unquote-quote_end t rest, token) refl)
    reads_value (arr nil) = λ h d f s rest e fuel. rw (e, value) refl
    reads_value (arr (cons v vs)) = value-items v vs (reads_value v) (reads_items vs)
    reads_value (obj end) = λ h d f s rest e fuel. rw (e, value) refl
    reads_value (obj (field k v fs)) = value-fields k v fs (reads_value v) (reads_fields fs)

    reads_items : (vs : Items) → ReadsItems vs
    reads_items nil =
        λ h v d f rest fuel. rw (append_assoc, blank.line-IsBlank d (b']' ∷ rest)) refl
    reads_items (cons w ws) = items-items w ws (reads_value w) (reads_items ws)

    reads_fields : (fs : Fields) → ReadsFields fs
    reads_fields end =
        λ h k v d f rest fuel. rw (append_assoc, blank.line-IsBlank d (b'}' ∷ rest)) refl
    reads_fields (field j w gs) = fields-fields j w gs (reads_value w) (reads_fields gs)

  -- A text that is printed is read back.
  pub unmarshal-print : (v : Value) → IsWordy v → unmarshal (print l 0 v) ≡ some v
  unfolding unmarshal whole skip_spaces
  unmarshal-print v h =
      let starts = rw append-nil at (skip_spaces-print v 0 [] h).0 in
      rw
        (reads_value v h 0 (length (print l 0 v)) (print l 0 v) [] (starts ∙ sym (append-nil _))
          (omega arith))
        refl

indented-IsBlank : IsBlank indented
unfolding skip_spaces indented
indented-IsBlank = record { line-IsBlank = blank; gap-IsBlank = λ t. refl }
  where
    blank : (d : ℕ) (t : Text) → skip_spaces (10 ∷ (spaces d ++ t)) ≡ skip_spaces t
    blank zero t = refl
    blank (suc d) t = blank d t

pub unmarshal-marshal_indent : (v : Value) → IsWordy v → unmarshal (marshal_indent v) ≡ some v
unfolding marshal_indent
unmarshal-marshal_indent v = unmarshal-print indented indented-IsBlank v
