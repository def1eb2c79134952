-- ===== src/Evidence/Frames.antt =====
-- The comparison of the frames of two analyses, thread by thread (`compare_evidence` of
-- evidence_comparison.py).
pub mod Returns
use crash_cap.Base.{
  ℕ, zero, suc, String, Bool, true, false, not, ◌&&◌, ◌||◌, Option, none, some, List, [], ◌∷◌, map,
  is_some, if◌then◌else◌, nat_eq, ltb, keep_if, length, ok, err, ◌>>=◌,
}
use crash_cap.Base.Keys.{text_keys}
use crash_cap.Base.Sorting.{sort_by}
use crash_cap.Evidence.{FrameEvidence}
use crash_cap.Evidence.Shape.{same_flag}
use crash_cap.Evidence.Alignment.{same_key, align}
use crash_cap.Evidence.Decision.{
  FieldValue, text, number, anchor_delta, unwind_delta, field_delta, Findings, Course, incomparable,
  note_delta, note_loss, reliable, same_text, same_value, same_number,
}

-- `f.in_app and f.thread_id == current.fault.thread_id`
abbrev pub in_business : Option ℕ → FrameEvidence → Bool
in_business fault f = f.in_app && same_number (some f.thread_id) fault

abbrev pub some_frame : (FrameEvidence → Bool) → List FrameEvidence → Bool
some_frame p [] = false
some_frame p (f ∷ fs) = let rest = some_frame p fs in p f || rest

-- The frames that the new analysis has lost, noted, and those that it has kept.
pub split_lost :
    Bool → List FrameEvidence → List FrameEvidence → Findings → List FrameEvidence × Findings
split_lost business after [] s = ([], s)
split_lost business after (f ∷ fs) s =
    let kept = split_lost business after fs s in
    let lost =
      split_lost business after fs
        (note_delta (anchor_delta f) (note_loss f.module_index "unwind" business s)) in
    if some_frame (λ g. same_key g f) after then (f ∷ kept.0, kept.1) else lost

-- One of the fields that a frame is interpreted by.
abbrev pub Field : Type 0
Field = String × Option FieldValue × Option FieldValue

abbrev text_value : Option String → Option FieldValue
text_value none = none
text_value (some s) = some (text s)

abbrev line_value : Option ℕ → Option FieldValue
line_value none = none
line_value (some n) = some (number n)

abbrev fields_of : FrameEvidence → FrameEvidence → List Field
fields_of old new =
    ("function", text_value old.function, text_value new.function)
    ∷ ("file", text_value old.file, text_value new.file)
    ∷ ("line", line_value old.line, line_value new.line)
    ∷ []

abbrev gained : Bool → FrameEvidence → Findings → Findings
gained business new s =
    if reliable new.unwind_method
    then record s { improved = true; business_improved = s.business_improved || business }
    else s

-- A field that differs, by what it was and what it is.
changed_field :
    Bool
    → FrameEvidence
    → FrameEvidence
    → Option FieldValue
    → Option FieldValue
    → Findings
    → Course Findings
changed_field business old new (some a) (some b) s =
    err (incomparable "interpretation_changed" s.differences)
changed_field business old new (some a) none s =
    ok (note_loss old.module_index "symbols" business s)
changed_field business old new none _ s = ok (gained business new s)

compare_fields : Bool → FrameEvidence → FrameEvidence → List Field → Findings → Course Findings
unfolding changed_field
compare_fields business old new [] s = ok s
compare_fields business old new ((name, a, b) ∷ fs) s =
    let unchanged = compare_fields business old new fs s in
    let changed =
      changed_field business old new a b (note_delta (field_delta old name a b) s)
      >>= compare_fields business old new fs in
    if same_value a b then unchanged else changed

compare_unwind : Bool → FrameEvidence → FrameEvidence → Findings → Course Findings
compare_unwind business old new s =
    let s' = note_delta (unwind_delta old.unwind_method new.unwind_method) s in
    if same_text old.unwind_method new.unwind_method
    then ok s
    else if reliable new.unwind_method
    then err (incomparable "unwind_changed" s'.differences)
    else ok (note_loss old.module_index "unwind" business s')

pub compare_frame : Bool → FrameEvidence → FrameEvidence → Findings → Course Findings
unfolding compare_unwind compare_fields
compare_frame business old new s =
    if same_flag old.in_app new.in_app
    then compare_unwind business old new s >>= compare_fields business old new (fields_of old new)
    else err (incomparable "context_mismatch" s.differences)

-- `after_frames[index]`
pub frame_at : List FrameEvidence → ℕ → Option FrameEvidence
frame_at [] i = none
frame_at (f ∷ fs) zero = some f
frame_at (f ∷ fs) (suc i) = frame_at fs i

-- The loop over the frames that were kept and the indices that they are mapped to. An alignment has
-- an index for each frame, and each is one of a frame.
compare_aligned :
    Bool → List FrameEvidence → List FrameEvidence → List ℕ → Findings → Course Findings
unfolding compare_frame frame_at
compare_aligned business after [] _ s = ok s
compare_aligned business after (f ∷ fs) [] s = ok s
compare_aligned business after (f ∷ fs) (i ∷ is) s = elim (frame_at after i) [
  | none ↦ compare_aligned business after fs is s
  | some g ↦ compare_frame business f g s >>= compare_aligned business after fs is
]

after_alignment :
    Bool → List FrameEvidence → List FrameEvidence → Option (List ℕ) → Findings → Course Findings
unfolding compare_aligned
after_alignment business after retained none s =
    err (incomparable "ambiguous_alignment" s.differences)
after_alignment business after retained (some mapping) s =
    compare_aligned business after retained mapping s

pub compare_thread : Bool → List FrameEvidence → List FrameEvidence → Findings → ℕ → Course Findings
unfolding after_alignment split_lost
compare_thread business old new s thread =
    let before = keep_if (λ f. nat_eq f.thread_id thread) old in
    let after = keep_if (λ f. nat_eq f.thread_id thread) new in
    let (retained, s') = split_lost business after before s in
    after_alignment business after retained (align retained after) s'

compare_threads :
    Bool → List FrameEvidence → List FrameEvidence → List ℕ → Findings → Course Findings
unfolding compare_thread
compare_threads business old new [] s = ok s
compare_threads business old new (t ∷ ts) s =
    compare_thread business old new s t >>= compare_threads business old new ts

distinct_numbers : List ℕ → List ℕ
distinct_numbers [] = []
distinct_numbers (n ∷ ns) = n ∷ keep_if (λ m. not (nat_eq m n)) (distinct_numbers ns)

-- `sorted({f.thread_id for f in frames})`
pub thread_ids : List FrameEvidence → List ℕ
unfolding distinct_numbers
thread_ids fs = sort_by ltb (distinct_numbers (map (λ f. f.thread_id) fs))

-- Each of the two rounds: the frames of the business stack, and the others.
pub compare_round :
    Option ℕ → List FrameEvidence → List FrameEvidence → Bool → Findings → Course Findings
unfolding thread_ids compare_threads
compare_round fault old new business s =
    let frames =
      keep_if (λ f. reliable f.unwind_method && same_flag (in_business fault f) business) old in
    if some_frame (λ f. in_business fault f && not (is_some f.unwind_method)) old
    then err (incomparable "legacy_evidence_missing" s.differences)
    else compare_threads business frames new (thread_ids frames) s

-- More frames of the business stack are unwound reliably.
abbrev business_frames : Option ℕ → List FrameEvidence → List FrameEvidence
business_frames fault = keep_if (λ f. in_business fault f && reliable f.unwind_method)

unfoldable pub compare_frames :
    Option ℕ → Option ℕ → List FrameEvidence → List FrameEvidence → Findings → Course Findings
unfolding compare_round
compare_frames fault fault' old new s = do
  s1 ← compare_round fault old new true s
  s2 ← compare_round fault old new false s1
  ok (
      if ltb (length (business_frames fault old)) (length (business_frames fault' new))
      then record s2 { improved = true; business_improved = true }
      else s2)
