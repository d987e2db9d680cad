-- ===== src/Uploads/Cancelled.antt =====
-- `abort` of uploads.rs: a task that is taken off the register has its cancellation flag set.
use forever.Prelude.{
  ◌≡◌, refl, ap, ◌∙◌, sym, Bool, true, false, not, ◌&&◌, ◌||◌, List, [], ◌∷◌, ◌++◌, keep, any, All,
  ◌==◌, ==_refl, if◌then◌else◌, or_false,
}
use forever.Bytes.{Bytes, bytes_eq}
use forever.RequestGuard.Seen.{bytes_eq_refl}
use forever.UploadPolicy.Fifo.{bytes_eq→eq}
use forever.Uploads.Types.{UploadSnapshot}
use forever.Uploads.Hub.{UploadHub, Task, is_active, abort}
use forever.Uploads.Queue.{abort_active}

-- The task is among these.
abbrev pub has : Task → List Task → Bool
has task tasks = any (λ t. bytes_eq t.0 task.0 && t.1 == task.1) tasks

abbrev pub of_upload : Bytes → Task → Bool
of_upload id task = bytes_eq task.0 id

-- Of the tasks that are split, each is on one side.
split :
    (task : Task) (id : Bytes) (ts cs : List Task)
    → (has task ts || has task cs) ≡ true
    → (has task (keep (λ t. not (of_upload id t)) ts) || has task (keep (of_upload id) ts ++ cs))
      ≡ true
split task id [] cs h = h
split task id (t ∷ ts) cs h = go (same t) (of_upload id t) refl h (split task id ts cs)
  where
    same : Task → Bool
    same = λ c. bytes_eq c.0 task.0 && c.1 == task.1

    others : List Task
    others = keep (λ t. not (of_upload id t)) ts

    own : List Task
    own = keep (of_upload id) ts

    or_true : (a b : Bool) → (a || (true || b)) ≡ true
    or_true true b = refl
    or_true false b = refl

    go :
        (b mine : Bool)
        → same t ≡ b
        → ((same t || has task ts) || has task cs) ≡ true
        → ((has task ts || has task cs) ≡ true → (has task others || has task (own ++ cs)) ≡ true)
        → (has task (elim (not mine) [ true ↦ t ∷ others | false ↦ others ])
            || has task (elim mine [ true ↦ t ∷ own | false ↦ own ] ++ cs))
          ≡ true
    go true true e h k =
        ap (λ c. has task others || (c || has task (own ++ cs))) e
        ∙ or_true (has task others) (has task (own ++ cs))
    go true false e h k = ap (λ c. (c || has task others) || has task (own ++ cs)) e
    go false true e h k =
        ap (λ c. has task others || (c || has task (own ++ cs))) e
        ∙ k (sym (ap (λ c. (c || has task ts) || has task cs) e) ∙ h)
    go false false e h k =
        ap (λ c. (c || has task others) || has task (own ++ cs)) e
        ∙ k (sym (ap (λ c. (c || has task ts) || has task cs) e) ∙ h)

-- Nothing that was on the register is lost without a word.
abort_active-known :
    (us : List UploadSnapshot) (hub : UploadHub) (task : Task)
    → (has task hub.tasks || has task hub.cancelled) ≡ true
    → (has task (abort_active us hub).tasks || has task (abort_active us hub).cancelled) ≡ true
unfolding abort_active abort
abort_active-known [] hub task h = h
abort_active-known (u ∷ us) hub task h =
    abort_active-known us (if is_active u then abort hub u.id else hub) task (go (is_active u))
  where
    next : Bool → UploadHub
    next b = if b then abort hub u.id else hub

    go : (b : Bool) → (has task (next b).tasks || has task (next b).cancelled) ≡ true
    go true = split task u.id hub.tasks hub.cancelled h
    go false = h

-- With no task of the upload on the register, this one is not on it.
absent :
    (id : Bytes) (task : Task) (ts : List Task)
    → of_upload id task ≡ true
    → any (of_upload id) ts ≡ false
    → has task ts ≡ false
absent id task [] e h = refl
absent id task (t ∷ ts) e h =
    let (first, rest) = or_false (of_upload id t) (any (of_upload id) ts) h in
    go (bytes_eq t.0 task.0) refl first (absent id task ts e rest)
  where
    go :
        (b : Bool)
        → bytes_eq t.0 task.0 ≡ b
        → of_upload id t ≡ false
        → has task ts ≡ false
        → ((bytes_eq t.0 task.0 && t.1 == task.1) || has task ts) ≡ false
    go true f first rest =
        absurd (contradicts (sym (ap (λ n. bytes_eq n id) (bytes_eq→eq t.0 task.0 f) ∙ e) ∙ first))
      where
        contradicts : true ≡ false → ⊥
        contradicts c = cc
    go false f first rest = ap (λ c. (c && t.1 == task.1) || has task ts) f ∙ rest

has_itself : (task : Task) (ts : List Task) → has task (task ∷ ts) ≡ true
has_itself (id, token) ts =
    ap (λ c. (c && token == token) || has (id, token) ts) (bytes_eq_refl id)
    ∙ ap (λ c. c || has (id, token) ts) (==_refl token)

-- Of an upload that has no task on the register any more, each that it had is cancelled.
pub abort_active-cancels :
    (us : List UploadSnapshot) (hub : UploadHub) (id : Bytes)
    → any (of_upload id) (abort_active us hub).tasks ≡ false
    → All (λ task. has task (abort_active us hub).cancelled ≡ true) (keep (of_upload id) hub.tasks)
abort_active-cancels us hub id stopped = each hub.tasks (λ task h. h)
  where
    cancelled :
        (task : Task)
        → of_upload id task ≡ true
        → has task hub.tasks ≡ true
        → has task (abort_active us hub).cancelled ≡ true
    cancelled task mine h =
        sym (
          ap (λ c. c || has task (abort_active us hub).cancelled)
            (absent id task (abort_active us hub).tasks mine stopped))
        ∙ abort_active-known us hub task (ap (λ c. c || has task hub.cancelled) h)

    each :
        (ts : List Task)
        → ((task : Task) → has task ts ≡ true → has task hub.tasks ≡ true)
        → All (λ task. has task (abort_active us hub).cancelled ≡ true) (keep (of_upload id) ts)
    each [] inside = tt
    each (t ∷ ts) inside =
        go (of_upload id t) refl (each ts (λ task h. inside task (behind task h)))
      where
        behind : (task : Task) → has task ts ≡ true → has task (t ∷ ts) ≡ true
        behind task h =
            ap (λ c. (bytes_eq t.0 task.0 && t.1 == task.1) || c) h
            ∙ or_true (bytes_eq t.0 task.0 && t.1 == task.1)
          where
            or_true : (a : Bool) → (a || true) ≡ true
            or_true true = refl
            or_true false = refl

        go :
            (b : Bool)
            → of_upload id t ≡ b
            → All (λ task. has task (abort_active us hub).cancelled ≡ true) (keep (of_upload id) ts)
            → All
                (λ task. has task (abort_active us hub).cancelled ≡ true)
                (elim b [ true ↦ t ∷ keep (of_upload id) ts | false ↦ keep (of_upload id) ts ])
        go true e rest = (cancelled t e (inside t (has_itself t ts)), rest)
        go false e rest = rest
