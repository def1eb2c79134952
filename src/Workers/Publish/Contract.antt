-- ===== src/Workers/Publish/Contract.antt =====
-- The dispatcher of queueing.py has an actor for every message that keeps the contract.
use crash_cap.Base.{
  String, ◌≡◌, refl, ap, ◌⊎◌, true, false, Option, some, Bool-cases, inl, inr, ok, err,
}
use crash_cap.Tasks.Message.{Message, text, get, satisfies_contract}
use crash_cap.Tasks.Message.Shapes.{
  Shape, upload, role, symbols, small, large, Shaped, satisfies_contract-Shaped,
}
use crash_cap.Workers.Publish.{
  Raised, api_error, Actor, verify_upload, dispatch_workspace_role, fetch_public_symbols,
  analyze_frozen_small, analyze_frozen_large, chosen_actor, handed, publish_task,
}

-- The actor of each kind of message.
pub actor_for : {t q : String} → Shape t q → Actor
actor_for (upload t q _ _) = verify_upload
actor_for (role t q _ _) = dispatch_workspace_role
actor_for (symbols t q _ _) = fetch_public_symbols
actor_for (small t q _ _) = analyze_frozen_small
actor_for (large t q _ _) = analyze_frozen_large

chosen_actor-Shape :
    (m : Message) (t q : String) (s : Shape t q)
    → satisfies_contract m ≡ true
    → get "task_type" m ≡ some (text t)
    → get "queue" m ≡ some (text q)
    → chosen_actor m ≡ ok (actor_for s)
unfolding chosen_actor actor_for
chosen_actor-Shape m t q (upload _ _ et eq) h ht hq = rw (h, ht, hq, et, eq) refl
chosen_actor-Shape m t q (role _ _ et eq) h ht hq = rw (h, ht, hq, et, eq) refl
chosen_actor-Shape m t q (symbols _ _ et eq) h ht hq = rw (h, ht, hq, et, eq) refl
chosen_actor-Shape m t q (small _ _ et eq) h ht hq = rw (h, ht, hq, et, eq) refl
chosen_actor-Shape m t q (large _ _ et eq) h ht hq = rw (h, ht, hq, et, eq) refl

chosen_actor-refused : (m : Message) → satisfies_contract m ≡ false → chosen_actor m ≡ err api_error
unfolding chosen_actor
chosen_actor-refused m h = rw h refl

-- A message that keeps the contract reaches the broker, with the actor of its task type and queue, and
-- publish_task raises what the broker raises; any other message is refused before the broker is called.
pub publish_task-contract :
    (broker : Actor → Message → Option Raised) (m : Message)
    → ((satisfies_contract m ≡ true)
        × (s : Shaped m) × (publish_task broker m ≡ broker (actor_for s.shape) m))
      ⊎ ((satisfies_contract m ≡ false) × (publish_task broker m ≡ some api_error))
unfolding publish_task
publish_task-contract broker m = elim (Bool-cases (satisfies_contract m)) [
  | inl h ↦
      let s = satisfies_contract-Shaped m h in
      inl (
        h,
        s,
        ap (handed broker m)
            (chosen_actor-Shape m s.task_type s.queue s.shape h s.has_type s.has_queue),
      )
  | inr h ↦ inr (h, ap (handed broker m) (chosen_actor-refused m h))
]
