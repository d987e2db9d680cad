-- ===== src/RequestGuard/Duplicates.antt =====
-- What the guard in distributed.rs remembers: it admits no request twice in five minutes.
use forever.Prelude.{
  ℕ, suc, ◌+◌, ◌-◌, ◌≤◌, ◌<◌, ◌≡◌, refl, ap, sym, subst, ◌∙◌, true, List, [], ◌∷◌, ◌++◌,
  append_assoc, length, length-append, All, arith,
}
use forever.Bytes.{Bytes}
use forever.Text.{to_ascii_lowercase}
use forever.RequestGuard.{
  Key, RequestAdmission, RequestGuard, duplicate_ttl, max_seen_requests, seen_at, is_seen, pruned,
  admit_pruned, admit,
}
use forever.RequestGuard.Seen.{kept, kept_young, seen_inside, remember-new}
use forever.RequestGuard.Bounds.{Bounded, admit_branches, admit-Bounded, pruned_seen}
use forever.RequestGuard.Window.{Request, log_of, admit_all, admit_all-Bounded}

-- A request is among the seen ones, with at most `n` behind it.
record Remembers (seen : List (Key × ℕ)) (key : Key) (time n : ℕ) : Type 0 where
  before : List (Key × ℕ)
  behind : List (Key × ℕ)
  place : seen ≡ before ++ (key, time) ∷ behind
  few : length behind ≤ n

pruned-Remembers :
    (guard : RequestGuard) (key : Key) (time n now : ℕ)
    → guard.seen ≡ guard.seen_order
    → now - time ≤ duplicate_ttl
    → n + 1 < max_seen_requests
    → Remembers guard.seen key time n
    → Remembers (pruned guard now).seen key time n
unfolding pruned
pruned-Remembers guard key time n now same young few h =
    let k = kept_young h.before key time now h.behind young (omega (arith, few, h.few)) in
    record {
      before = k.0;
      behind = h.behind;
      place = ap (λ r. r.0) (pruned_seen guard now same) ∙ ap (λ l. kept l now) h.place ∙ k.1;
      few = h.few;
    }

-- Another request comes behind.
added :
    (seen : List (Key × ℕ)) (key key' : Key) (time time' n : ℕ)
    → Remembers seen key time n
    → Remembers (seen ++ (key', time') ∷ []) key time (n + 1)
added seen key key' time time' n h = record {
  before = h.before;
  behind = h.behind ++ (key', time') ∷ [];
  place =
      ap (λ l. l ++ (key', time') ∷ []) h.place
      ∙ append_assoc h.before ((key, time) ∷ h.behind) ((key', time') ∷ []);
  few = omega (arith, length-append h.behind ((key', time') ∷ []), h.few);
}

admit_pruned-Remembers :
    (guard : RequestGuard) (name : Bytes) (token now : ℕ) (key : Key) (time : ℕ) (log : List ℕ)
    → Remembers guard.seen key time (length log)
    → Remembers
        (admit_pruned guard name token now).1.seen
        key
        time
        (length (log_of (admit_pruned guard name token now).0 now log))
admit_pruned-Remembers guard name token now key time log h =
    admit_branches guard name token now
      (λ r. Remembers r.1.seen key time (length (log_of r.0 now log))) (λ e. h) (λ e. h)
      (λ e f g.
        subst (λ l. Remembers l key time (suc (length log)))
          (sym (remember-new guard.seen (name, token) now e))
          (subst (λ n. Remembers (guard.seen ++ ((name, token), now) ∷ []) key time n) (omega arith)
            (added guard.seen key (name, token) time now (length log) h)))

length-log_of :
    (answer : RequestAdmission) (now : ℕ) (log : List ℕ)
    → length log ≤ length (log_of answer now log)
length-log_of RequestAdmission.allowed now log = omega arith
length-log_of RequestAdmission.duplicate now log = omega arith
length-log_of RequestAdmission.rate_limited now log = omega arith

length-admit_all :
    (rs : List Request) (guard : RequestGuard) (log : List ℕ)
    → length log ≤ length (admit_all rs guard log).1
unfolding admit_all
length-admit_all [] guard log = omega arith
length-admit_all (r ∷ rs) guard log =
    let answer = admit guard r.username r.token r.time in
    omega (
      arith,
      length-log_of answer.0 r.time log,
      length-admit_all rs answer.1 (log_of answer.0 r.time log),
    )

-- It stays through young requests, as long as few are admitted.
admit_all-Remembers :
    (rs : List Request) (guard : RequestGuard) (key : Key) (time : ℕ) (log : List ℕ)
    → Bounded guard
    → All (λ r. r.time - time ≤ duplicate_ttl) rs
    → length (admit_all rs guard log).1 + 1 < max_seen_requests
    → Remembers guard.seen key time (length log)
    → Remembers (admit_all rs guard log).0.seen key time (length (admit_all rs guard log).1)
unfolding admit_all admit
admit_all-Remembers [] guard key time log b young few h = h
admit_all-Remembers (r ∷ rs) guard key time log b (y, young) few h =
    admit_all-Remembers rs (admit guard r.username r.token r.time).1 key time
      (log_of (admit guard r.username r.token r.time).0 r.time log)
      (admit-Bounded guard r.username r.token r.time b) young few one
  where
    one :
        Remembers
          (admit guard r.username r.token r.time).1.seen
          key
          time
          (length (log_of (admit guard r.username r.token r.time).0 r.time log))
    one =
        admit_pruned-Remembers (pruned guard r.time) (to_ascii_lowercase r.username) r.token r.time
          key time log
          (pruned-Remembers guard key time (length log) r.time b.same y
            (omega (arith, few, length-admit_all (r ∷ rs) guard log)) h)

admitted-Remembers :
    (guard : RequestGuard) (name : Bytes) (token now : ℕ)
    → (admit_pruned guard name token now).0 ≡ RequestAdmission.allowed
    → Remembers (admit_pruned guard name token now).1.seen (name, token) now 0
admitted-Remembers guard name token now =
    admit_branches guard name token now
      (λ r. r.0 ≡ RequestAdmission.allowed → Remembers r.1.seen (name, token) now 0)
      (λ e h. absurd cc) (λ e h. absurd cc)
      (λ e f g h. record {
        before = guard.seen;
        behind = [];
        place = remember-new guard.seen (name, token) now e;
        few = omega arith;
      })

seen-duplicate :
    (guard : RequestGuard) (name : Bytes) (token now : ℕ)
    → is_seen (seen_at guard.seen (name, token)) ≡ true
    → (admit_pruned guard name token now).0 ≡ RequestAdmission.duplicate
seen-duplicate guard name token now h =
    admit_branches guard name token now (λ r. r.0 ≡ RequestAdmission.duplicate) (λ e. refl)
      (λ e. absurd cc) (λ e f g. absurd cc)

remembered-duplicate :
    (guard : RequestGuard) (username : Bytes) (token time now n : ℕ)
    → guard.seen ≡ guard.seen_order
    → now - time ≤ duplicate_ttl
    → n + 1 < max_seen_requests
    → Remembers guard.seen (to_ascii_lowercase username, token) time n
    → (admit guard username token now).0 ≡ RequestAdmission.duplicate
unfolding admit
remembered-duplicate guard username token time now n same young few h =
    let name = to_ascii_lowercase username in
    let p = pruned-Remembers guard (name, token) time n now same young few h in
    seen-duplicate (pruned guard now) name token now (
      ap (λ l. is_seen (seen_at l (name, token))) p.place
      ∙ seen_inside p.before (name, token) time p.behind)

-- After a search was admitted, the same search again, with the name in any case, is a duplicate if
-- it comes at most five minutes later, whatever other searches of these five minutes came in
-- between, if at most 8190 of those were admitted.
pub admit-duplicate :
    (guard : RequestGuard) (username username' : Bytes) (token now now' : ℕ)
    (between : List Request)
    → Bounded guard
    → (admit guard username token now).0 ≡ RequestAdmission.allowed
    → All (λ r. r.time - now ≤ duplicate_ttl) between
    → length (admit_all between (admit guard username token now).1 []).1 + 1 < max_seen_requests
    → to_ascii_lowercase username' ≡ to_ascii_lowercase username
    → now' - now ≤ duplicate_ttl
    → (admit (admit_all between (admit guard username token now).1 []).0 username' token now').0
      ≡ RequestAdmission.duplicate
unfolding admit
admit-duplicate guard username username' token now now' between b h young few same late =
    let next = (admit guard username token now).1 in
    let after = admit_all between next [] in
    let good : Bounded next = admit-Bounded guard username token now b in
    remembered-duplicate after.0 username' token now now' (length after.1)
      (admit_all-Bounded between next [] good).same late few
      (subst (λ n. Remembers after.0.seen (n, token) now (length after.1)) (sym same)
        (admit_all-Remembers between next (to_ascii_lowercase username, token) now [] good young few
          first))
  where
    first :
        Remembers (admit guard username token now).1.seen (to_ascii_lowercase username, token) now 0
    first = admitted-Remembers (pruned guard now) (to_ascii_lowercase username) token now h
