-- ===== src/Evidence/Frames/Returns.antt =====
-- What the comparison of frames returns early (evidence_comparison.py).
use crash_cap.Base.{
  ℕ, refl, Bool, not, ◌&&◌, is_some, nat_eq, keep_if, Option, none, some, List, [], ◌∷◌,
}
use crash_cap.Evidence.{FrameEvidence, one_of}
use crash_cap.Evidence.Alignment.{align}
use crash_cap.Evidence.Decision.{FieldValue, Findings, incomparable, reliable}
use crash_cap.Evidence.Shape.{same_flag}
use crash_cap.Evidence.Decision.Contract.{
  listed, Returns, goes_on, returns, bind-Returns, if-Returns, option-Returns,
}
use crash_cap.Evidence.Frames.{
  in_business, some_frame, split_lost, fields_of, thread_ids, Field, changed_field, compare_fields,
  compare_unwind, compare_frame, frame_at, compare_aligned, after_alignment, compare_thread,
  compare_threads, compare_round, compare_frames,
}

changed_field-Returns :
    (business : Bool) (old new : FrameEvidence) (a b : Option FieldValue) (s : Findings)
    → Returns (changed_field business old new a b s)
unfolding changed_field listed one_of
changed_field-Returns business old new (some a) (some b) s = returns _ refl
changed_field-Returns business old new (some a) none s = goes_on _
changed_field-Returns business old new none b s = goes_on _

compare_fields-Returns :
    (business : Bool) (old new : FrameEvidence) (fs : List Field) (s : Findings)
    → Returns (compare_fields business old new fs s)
unfolding compare_fields
compare_fields-Returns business old new [] s = goes_on s
compare_fields-Returns business old new ((name, a, b) ∷ fs) s =
    if-Returns _ _ _ (compare_fields-Returns business old new fs s) (
      bind-Returns (changed_field business old new a b _) (compare_fields business old new fs)
        (changed_field-Returns business old new a b _)
        (λ t. compare_fields-Returns business old new fs t))

compare_unwind-Returns :
    (business : Bool) (old new : FrameEvidence) (s : Findings)
    → Returns (compare_unwind business old new s)
unfolding compare_unwind listed one_of
compare_unwind-Returns business old new s =
    if-Returns _ _ _ (goes_on _) (if-Returns _ _ _ (returns _ refl) (goes_on _))

compare_frame-Returns :
    (business : Bool) (old new : FrameEvidence) (s : Findings)
    → Returns (compare_frame business old new s)
unfolding compare_frame listed one_of
compare_frame-Returns business old new s =
    if-Returns (same_flag old.in_app new.in_app) _ _
      (bind-Returns (compare_unwind business old new s) _
        (compare_unwind-Returns business old new s)
        (λ t. compare_fields-Returns business old new (fields_of old new) t))
      (returns (incomparable "context_mismatch" s.differences) refl)

compare_aligned-Returns :
    (business : Bool) (after fs : List FrameEvidence) (is : List ℕ) (s : Findings)
    → Returns (compare_aligned business after fs is s)
unfolding compare_aligned
compare_aligned-Returns business after [] is s = goes_on s
compare_aligned-Returns business after (f ∷ fs) [] s = goes_on s
compare_aligned-Returns business after (f ∷ fs) (i ∷ is) s =
    option-Returns (frame_at after i) (compare_aligned business after fs is s) _
      (compare_aligned-Returns business after fs is s)
      (λ g.
        bind-Returns (compare_frame business f g s) (compare_aligned business after fs is)
          (compare_frame-Returns business f g s)
          (λ t. compare_aligned-Returns business after fs is t))

after_alignment-Returns :
    (business : Bool) (after fs : List FrameEvidence) (o : Option (List ℕ)) (s : Findings)
    → Returns (after_alignment business after fs o s)
unfolding after_alignment listed one_of
after_alignment-Returns business after fs none s = returns _ refl
after_alignment-Returns business after fs (some is) s =
    compare_aligned-Returns business after fs is s

compare_thread-Returns :
    (business : Bool) (old new : List FrameEvidence) (s : Findings) (t : ℕ)
    → Returns (compare_thread business old new s t)
unfolding compare_thread
compare_thread-Returns business old new s t =
    let before = keep_if (λ f. nat_eq f.thread_id t) old in
    let after = keep_if (λ f. nat_eq f.thread_id t) new in
    let r = split_lost business after before s in
    after_alignment-Returns business after r.0 (align r.0 after) r.1

compare_threads-Returns :
    (business : Bool) (old new : List FrameEvidence) (ts : List ℕ) (s : Findings)
    → Returns (compare_threads business old new ts s)
unfolding compare_threads
compare_threads-Returns business old new [] s = goes_on s
compare_threads-Returns business old new (t ∷ ts) s =
    bind-Returns (compare_thread business old new s t) _
      (compare_thread-Returns business old new s t)
      (λ u. compare_threads-Returns business old new ts u)

compare_round-Returns :
    (fault : Option ℕ) (old new : List FrameEvidence) (business : Bool) (s : Findings)
    → Returns (compare_round fault old new business s)
unfolding compare_round listed one_of
compare_round-Returns fault old new business s =
    let frames =
      keep_if (λ f. reliable f.unwind_method && same_flag (in_business fault f) business) old in
    if-Returns (some_frame (λ f. in_business fault f && not (is_some f.unwind_method)) old) _ _
      (returns (incomparable "legacy_evidence_missing" s.differences) refl)
      (compare_threads-Returns business frames new (thread_ids frames) s)

pub compare_frames-Returns :
    (fault fault' : Option ℕ) (old new : List FrameEvidence) (s : Findings)
    → Returns (compare_frames fault fault' old new s)
unfolding compare_frames
compare_frames-Returns fault fault' old new s =
    bind-Returns (compare_round fault old new _ s) _ (compare_round-Returns fault old new _ s) (λ t.
      bind-Returns (compare_round fault old new _ t) _ (compare_round-Returns fault old new _ t)
        (λ u. goes_on _))
