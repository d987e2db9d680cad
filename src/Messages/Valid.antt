-- ===== src/Messages/Valid.antt =====
-- What the store of messages.rs always is: it keeps its bounds, counts the unread messages, and has
-- one conversation with a user.
use forever.Prelude.{
  ℕ, zero, suc, ◌≤◌, ◌≡◌, refl, ap, sym, subst, ◌∙◌, Bool, true, false, List, [], ◌∷◌, ◌++◌, length,
  keep, any, map, take, update_first, All, All-append, All-keep, leb, if◌then◌else◌, arith,
  length-take, or_false,
}
use forever.Bytes.{Bytes}
use forever.Text.{to_ascii_lowercase}
use forever.Uploads.Types.{eq_ignore_ascii_case}
use forever.Uploads.Grows.{bytes_eq_sym}
use forever.Messages.{
  PrivateConversation, Store, max_conversations, max_messages_per_conversation, is_unread, is_with,
  change_conversation, insert, sort, sort_and_trim, touch_conversation,
}

abbrev pub Good : PrivateConversation → Type 0
Good c =
    (length c.messages ≤ max_messages_per_conversation)
    × (c.unread_count ≡ length (keep is_unread c.messages))

abbrev pub names : Store → List Bytes
names store = map (λ (c : PrivateConversation). c.username) store

abbrev pub Distinct : List Bytes → Type 0
Distinct [] = Unit
Distinct (n ∷ ns) = All (λ m. eq_ignore_ascii_case n m ≡ false) ns × Distinct ns

pub record Valid (store : Store) : Type 0 where
  pub few : length store ≤ max_conversations
  pub good : All Good store
  pub distinct : Distinct (names store)

-- A store before it is sorted and cut.
pub record Ready (store : Store) : Type 0 where
  pub good : All Good store
  pub distinct : Distinct (names store)

apart_sym : (a b : Bytes) → eq_ignore_ascii_case a b ≡ false → eq_ignore_ascii_case b a ≡ false
apart_sym a b h = bytes_eq_sym (to_ascii_lowercase b) (to_ascii_lowercase a) ∙ h

All-insert {κ} :
    (P : PrivateConversation → Type κ) (c : PrivateConversation) (cs : Store)
    → P c
    → All P cs
    → All P (insert c cs)
unfolding insert
All-insert P c [] p h = (p, tt)
All-insert P c (d ∷ ds) p (h, hs) =
    go (leb d.updated_at_ms c.updated_at_ms) (All-insert P c ds p hs)
  where
    go : (b : Bool) → All P (insert c ds) → All P (if b then c ∷ (d ∷ ds) else d ∷ insert c ds)
    go true r = (p, (h, hs))
    go false r = (h, r)

-- What holds of the names is a property of the conversations.
names-All : (P : Bytes → Type 0) (cs : Store) → All (λ c. P c.username) cs → All P (names cs)
names-All P [] h = tt
names-All P (c ∷ cs) (h, hs) = (h, names-All P cs hs)

All-names :
    (P : Bytes → Type 0) (cs : Store)
    → All P (names cs)
    → All (λ (c : PrivateConversation). P c.username) cs
All-names P [] h = tt
All-names P (c ∷ cs) (h, hs) = (h, All-names P cs hs)

Distinct-insert :
    (c : PrivateConversation) (cs : Store)
    → All (λ m. eq_ignore_ascii_case c.username m ≡ false) (names cs)
    → Distinct (names cs)
    → Distinct (names (insert c cs))
unfolding insert
Distinct-insert c [] h d = (tt, tt)
Distinct-insert c (e ∷ es) (h, hs) (k, d) =
    go (leb e.updated_at_ms c.updated_at_ms) (Distinct-insert c es hs d)
  where
    others : All (λ m. eq_ignore_ascii_case e.username m ≡ false) (names (insert c es))
    others =
        names-All (λ m. eq_ignore_ascii_case e.username m ≡ false) (insert c es)
          (All-insert (λ x. eq_ignore_ascii_case e.username x.username ≡ false) c es
            (apart_sym c.username e.username h)
            (All-names (λ m. eq_ignore_ascii_case e.username m ≡ false) es k))

    go :
        (b : Bool)
        → Distinct (names (insert c es))
        → Distinct (names (if b then c ∷ (e ∷ es) else e ∷ insert c es))
    go true r = ((h, hs), (k, d))
    go false r = (others, r)

All-sort {κ} : (P : PrivateConversation → Type κ) (cs : Store) → All P cs → All P (sort cs)
unfolding sort
All-sort P [] h = tt
All-sort P (c ∷ cs) (h, hs) = All-insert P c (sort cs) h (All-sort P cs hs)

Distinct-sort : (cs : Store) → Distinct (names cs) → Distinct (names (sort cs))
unfolding sort
Distinct-sort [] d = tt
Distinct-sort (c ∷ cs) (h, d) =
    Distinct-insert c (sort cs)
      (names-All (λ m. eq_ignore_ascii_case c.username m ≡ false) (sort cs)
        (All-sort (λ x. eq_ignore_ascii_case c.username x.username ≡ false) cs
          (All-names (λ m. eq_ignore_ascii_case c.username m ≡ false) cs h)))
      (Distinct-sort cs d)

All-take {κ} :
    (P : PrivateConversation → Type κ) (n : ℕ) (cs : Store) → All P cs → All P (take n cs)
All-take P zero cs h = tt
All-take P (suc n) [] h = tt
All-take P (suc n) (c ∷ cs) (h, hs) = (h, All-take P n cs hs)

Distinct-take : (n : ℕ) (cs : Store) → Distinct (names cs) → Distinct (names (take n cs))
Distinct-take zero cs d = tt
Distinct-take (suc n) [] d = tt
Distinct-take (suc n) (c ∷ cs) (h, d) = (
  names-All (λ m. eq_ignore_ascii_case c.username m ≡ false) (take n cs)
      (All-take (λ x. eq_ignore_ascii_case c.username x.username ≡ false) n cs
        (All-names (λ m. eq_ignore_ascii_case c.username m ≡ false) cs h)),
  Distinct-take n cs d,
)

pub sort_and_trim-Valid : (store : Store) → Ready store → Valid (sort_and_trim store)
unfolding sort_and_trim
sort_and_trim-Valid store h = record {
  few = omega (arith, length-take max_conversations (sort store));
  good = All-take Good max_conversations (sort store) (All-sort Good store h.good);
  distinct = Distinct-take max_conversations (sort store) (Distinct-sort store h.distinct);
}

-- A change of conversations that keeps their names.
pub update_first-Ready :
    (p : PrivateConversation → Bool) (f : PrivateConversation → PrivateConversation) (store : Store)
    → ((c : PrivateConversation) → (f c).username ≡ c.username)
    → ((c : PrivateConversation) → Good c → Good (f c))
    → Ready store
    → Ready (update_first p f store)
update_first-Ready p f store n g h = record {
  good = go store h.good;
  distinct = subst Distinct (sym (same store)) h.distinct;
}
  where
    same : (cs : Store) → names (update_first p f cs) ≡ names cs
    same [] = refl
    same (c ∷ cs) =
        elim (p c)
          as (λ b.
            names (elim b [ true ↦ f c ∷ cs | false ↦ c ∷ update_first p f cs ]) ≡ names (c ∷ cs)) [
              | true ↦ ap (λ m. m ∷ names cs) (n c)
              | false ↦ ap (λ l. c.username ∷ l) (same cs)
            ]

    go : (cs : Store) → All Good cs → All Good (update_first p f cs)
    go [] k = tt
    go (c ∷ cs) (k, ks) =
        elim (p c)
          as (λ b. All Good (elim b [ true ↦ f c ∷ cs | false ↦ c ∷ update_first p f cs ])) [
            | true ↦ (g c k, ks)
            | false ↦ (k, go cs ks)
          ]

Distinct-append :
    (cs : Store) (c : PrivateConversation)
    → any (is_with c.username) cs ≡ false
    → Distinct (names cs)
    → Distinct (names (cs ++ c ∷ []))
Distinct-append [] c h d = (tt, tt)
Distinct-append (e ∷ es) c h (k, d) =
    let o = or_false (is_with c.username e) (any (is_with c.username) es) h in
    (
      names-All (λ m. eq_ignore_ascii_case e.username m ≡ false) (es ++ c ∷ [])
          (All-append (λ x. eq_ignore_ascii_case e.username x.username ≡ false) es (c ∷ [])
            (All-names (λ m. eq_ignore_ascii_case e.username m ≡ false) es k) (o.0, tt)),
      Distinct-append es c o.1 d,
    )

pub change_conversation-Ready :
    (store : Store) (username : Bytes) (now : ℕ) (f : PrivateConversation → PrivateConversation)
    → ((c : PrivateConversation) → (f c).username ≡ c.username)
    → ((c : PrivateConversation) → Good c → Good (f c))
    → Ready store
    → Ready (change_conversation store username now f)
unfolding change_conversation
change_conversation-Ready store username now f n g h = go (any (is_with username) store) refl
  where
    new : PrivateConversation
    new = record { username = username; messages = []; unread_count = 0; updated_at_ms = now }

    go :
        (b : Bool)
        → any (is_with username) store ≡ b
        → Ready (if b then update_first (is_with username) f store else store ++ f new ∷ [])
    go true e = update_first-Ready (is_with username) f store n g h
    go false e = record {
      good = All-append Good store (f new ∷ []) h.good (g new (omega arith, refl), tt);
      distinct =
          Distinct-append store (f new) (ap (λ m. any (is_with m) store) (n new) ∙ e) h.distinct;
    }

pub touch_conversation-Valid :
    (store : Store) (username : Bytes) (now : ℕ)
    → Ready store
    → Valid (touch_conversation store username now)
unfolding touch_conversation
touch_conversation-Valid store username now h =
    sort_and_trim-Valid
      (update_first (is_with username) (λ c. record c { updated_at_ms = now }) store)
      (update_first-Ready (is_with username) (λ c. record c { updated_at_ms = now }) store
        (λ c. refl) (λ c g. g) h)

pub Ready-Valid : (store : Store) → Valid store → Ready store
Ready-Valid store h = record { good = h.good; distinct = h.distinct }

pub keep-Distinct :
    (p : PrivateConversation → Bool) (cs : Store)
    → Distinct (names cs)
    → Distinct (names (keep p cs))
keep-Distinct p [] d = tt
keep-Distinct p (c ∷ cs) (h, d) = go (p c) (keep-Distinct p cs d)
  where
    others : All (λ m. eq_ignore_ascii_case c.username m ≡ false) (names (keep p cs))
    others =
        names-All (λ m. eq_ignore_ascii_case c.username m ≡ false) (keep p cs)
          (All-keep (λ x. eq_ignore_ascii_case c.username x.username ≡ false) p cs
            (All-names (λ m. eq_ignore_ascii_case c.username m ≡ false) cs h))

    go :
        (b : Bool)
        → Distinct (names (keep p cs))
        → Distinct (names (elim b [ true ↦ c ∷ keep p cs | false ↦ keep p cs ]))
    go true r = (others, r)
    go false r = r
