-- ===== src/Api/Feed.antt =====
-- What the feed of events shows.
use mathlib.Core.List.{Memᴰ}
use hackaway_repo.Base.{
  ℕ, pos, zero, suc, ◌≤◌, compare, Ordering, String, Bool, true, ◌==◌, ◌&&◌, ◌≡◌, refl, ap, ◌∙◌,
  ◌⊎◌, inl, inr, List, [], ◌∷◌, ◌++◌, map, length, arith, contains, contains_self, Option-cases,
  Bool-cases,
}
use hackaway_repo.V1.Agent.{ClawAgent}
use hackaway_repo.Client.{agent, Result-cases, ok, Client}
use hackaway_repo.Api.Http.{Writer, events, write_json}
use hackaway_repo.Api.Types.{ActivityEvent}
use hackaway_repo.Api.Activity.{
  Logs, a2a_event, plain_event, take, alert_event, text_events, line_events, lines_events,
  get_pod_logs, agent_events, collect_events, handle_activity,
}

length-take : {A : Type 0} (n : ℕ) (xs : List A) → length (take n xs) ≤ n
unfolding take
length-take zero xs = omega arith
length-take (suc n) [] = omega arith
length-take (suc n) (x ∷ xs) = omega (arith, length-take n xs)

-- Every event is of an agent with one of the names.
unfoldable pub all_from : List String → List ActivityEvent → Bool
all_from names [] = true
all_from names (e ∷ es) = contains e.agent names && all_from names es

abbrev pub names_of : List ClawAgent → List String
names_of agents = map (λ a. a.meta.name) agents

all_from-append :
    (names : List String) (xs ys : List ActivityEvent)
    → all_from names xs ≡ true
    → all_from names ys ≡ true
    → all_from names (xs ++ ys) ≡ true
unfolding all_from
all_from-append names [] ys p q = q
all_from-append names (x ∷ xs) ys p q = elim (Bool-cases (contains x.agent names)) [
  | inl e ↦ rw e (all_from-append names xs ys (rw e at p) q)
  | inr e ↦ absurd (ground arith)
]

all_from-Mem :
    (names : List String) (xs : List ActivityEvent) (e : ActivityEvent)
    → all_from names xs ≡ true
    → Memᴰ e xs
    → contains e.agent names ≡ true
unfolding all_from
all_from-Mem names [] e p m = elim m [ ]
all_from-Mem names (x ∷ xs) e p (Memᴰ.head same) =
    ap (λ y. contains y.agent names) same
    ∙ (elim (Bool-cases (contains x.agent names)) [ inl q ↦ q | inr q ↦ absurd (ground arith) ])
all_from-Mem names (x ∷ xs) e p (Memᴰ.tail m) = elim (Bool-cases (contains x.agent names)) [
  | inl q ↦ all_from-Mem names xs e (rw q at p) m
  | inr q ↦ absurd (ground arith)
]

-- A list whose elements are all of another is of the same agents.
all_from_part :
    (names : List String) (xs ys : List ActivityEvent)
    → ((e : ActivityEvent) → Memᴰ e xs → Memᴰ e ys)
    → all_from names ys ≡ true
    → all_from names xs ≡ true
unfolding all_from
all_from_part names [] ys part p = refl
all_from_part names (x ∷ xs) ys part p =
    rw (all_from-Mem names ys x p (part x (Memᴰ.head refl)))
      (all_from_part names xs ys (λ e m. part e (Memᴰ.tail m)) p)

take-Mem : (n : ℕ) (xs : List ActivityEvent) (e : ActivityEvent) → Memᴰ e (take n xs) → Memᴰ e xs
unfolding take
take-Mem zero xs e m = elim m [ ]
take-Mem (suc n) [] e m = elim m [ ]
take-Mem (suc n) (x ∷ xs) e (Memᴰ.head same) = Memᴰ.head same
take-Mem (suc n) (x ∷ xs) e (Memᴰ.tail m) = Memᴰ.tail (take-Mem n xs e m)

Ordering-cases :
    (m n : ℕ)
    → (compare m n ≡ Ordering.lt) ⊎ ((compare m n ≡ Ordering.eq) ⊎ (compare m n ≡ Ordering.gt))
Ordering-cases m n = by_case (compare m n)
  where
    by_case : (o : Ordering) → (o ≡ Ordering.lt) ⊎ ((o ≡ Ordering.eq) ⊎ (o ≡ Ordering.gt))
    by_case Ordering.lt = inl refl
    by_case Ordering.eq = inr (inl refl)
    by_case Ordering.gt = inr (inr refl)

name_known :
    (agents : List ClawAgent) (a : ClawAgent)
    → Memᴰ a agents
    → contains a.meta.name (names_of agents) ≡ true
unfolding contains
name_known [] a m = elim m [ ]
name_known (b ∷ agents) a (Memᴰ.head same) =
    ap (λ x. contains x.meta.name (names_of (b ∷ agents))) same
    ∙ contains_self b.meta.name (names_of agents)
name_known (b ∷ agents) a (Memᴰ.tail m) =
    let rest = name_known agents a m in
    elim (Bool-cases (b.meta.name == a.meta.name)) [ inl e ↦ rw e refl | inr e ↦ rw e rest ]

module _ (c : Client) (logs : Logs) (namespace : String) (names : List String) where
  text_events_from :
      (name line : String)
      → contains name names ≡ true
      → all_from names (text_events c logs namespace name line) ≡ true
  unfolding text_events alert_event plain_event all_from
  text_events_from name line known = elim (Bool-cases (logs.has line "[observeclaw] alert:")) [
    | inl e ↦ elim (Bool-cases (logs.has line "embedded run agent end")) [
      | inl f ↦ rw e (rw f (rw known refl))
      | inr f ↦ rw e (rw f (rw known refl))
    ]
    | inr e ↦ elim (Bool-cases (logs.has line "embedded run agent end")) [
      | inl f ↦ rw e (rw f (rw known refl))
      | inr f ↦ rw e (rw f refl)
    ]
  ]

  line_events_from :
      (name line : String)
      → contains name names ≡ true
      → all_from names (line_events c logs namespace name line) ≡ true
  unfolding line_events a2a_event all_from
  line_events_from name line known =
      let rest = text_events_from name line known in
      elim (Bool-cases
        (logs.has line "\"component\":\"a2a-gateway\"" && logs.has line "\"event\"")) [
          | inr e ↦ rw e rest
          | inl e ↦ elim (Option-cases (logs.index line "{")) [
            | inl i ↦ rw e (rw i refl)
            | inr (start, i) ↦ elim (Option-cases (logs.decode_event (logs.from line start))) [
              | inl d ↦ rw e (rw i (rw d refl))
              | inr (v, d) ↦ rw e (rw i (rw d (rw known rest)))
            ]
          ]
        ]

  lines_events_from :
      (name : String) (lines : List String)
      → contains name names ≡ true
      → all_from names (lines_events c logs namespace name lines) ≡ true
  unfolding lines_events all_from
  lines_events_from name [] known = refl
  lines_events_from name (line ∷ lines) known =
      all_from-append names (line_events c logs namespace name line) _
        (line_events_from name line known) (lines_events_from name lines known)

  agent_events_from :
      (a : ClawAgent) (s : c.State) (es : List ActivityEvent)
      → contains a.meta.name names ≡ true
      → (agent_events c logs namespace a s).0 ≡ ok es
      → all_from names es ≡ true
  unfolding agent_events all_from
  agent_events_from a s es known done =
      elim (Result-cases (c.list_pods namespace ("app", a.meta.name) s)) [
        | inl ([], e) ↦ let same : es ≡ [] = ground arith in ap (all_from names) same
        | inl (p ∷ ps, e) ↦
            elim (Result-cases (get_pod_logs c logs namespace p.meta.name (pos 50))) [
              | inl (lines, read) ↦
                  let same : es ≡ lines_events c logs namespace a.meta.name lines = ground arith in
                  ap (all_from names) same ∙ lines_events_from a.meta.name lines known
              | inr (inl (f, failed)) ↦ absurd (ground arith)
              | inr (inr failed) ↦ absurd (ground arith)
            ]
        | inr (inl (f, e)) ↦ let same : es ≡ [] = ground arith in ap (all_from names) same
        | inr (inr e) ↦ absurd (ground arith)
      ]

  collect_events_from :
      (agents : List ClawAgent) (found : List ActivityEvent) (s : c.State) (es : List ActivityEvent)
      → ((a : ClawAgent) → Memᴰ a agents → contains a.meta.name names ≡ true)
      → all_from names found ≡ true
      → (collect_events c logs namespace found agents s).0 ≡ ok es
      → all_from names es ≡ true
  unfolding collect_events
  collect_events_from [] found s es known p done =
      let same : es ≡ found = ground arith in ap (all_from names) same ∙ p
  collect_events_from (a ∷ rest) found s es known p done = elim (Ordering-cases (length found) 50) [
    | inl lt ↦ elim (Result-cases (agent_events c logs namespace a s).0) [
      | inl (more, e) ↦
          collect_events_from rest (found ++ more) (agent_events c logs namespace a s).1 es
            (λ b m. known b (Memᴰ.tail m))
            (all_from-append names found more p
              (agent_events_from a s more (known a (Memᴰ.head refl)) e))
            (ground arith)
      | inr bad ↦ absurd (ground arith)
    ]
    | inr enough ↦ let same : es ≡ found = ground arith in ap (all_from names) same ∙ p
  ]

module _ (c : Client) (logs : Logs) (namespace : String) where
  newer_first : List ActivityEvent → List ActivityEvent
  newer_first = logs.sort_slice (λ x y. logs.after x.timestamp y.timestamp)

  -- When the sorting gives only elements of the list and the agents can be read, an answer of the
  -- feed is one of at most 50 events, each of an agent that was read.
  pub handle_activity-all_from :
      (w r : Writer) (s : c.State) (agents : List ClawAgent)
      → ((f : ActivityEvent → ActivityEvent → Bool) (xs : List ActivityEvent) (e : ActivityEvent)
          → Memᴰ e (logs.sort_slice f xs)
          → Memᴰ e xs)
      → c.list agent namespace s ≡ ok agents
      → (handle_activity c logs namespace w s).0 ≡ ok r
      → (es : List ActivityEvent) × (r ≡ write_json (events es) w)
        × (length es ≤ 50)
        × (all_from (names_of agents) es ≡ true)
  unfolding handle_activity newer_first all_from
  handle_activity-all_from w r s agents kept listed done =
      elim (Result-cases (collect_events c logs namespace [] agents s).0) [
        | inl (found, e) ↦
            let names = names_of agents in
            let from =
              collect_events_from c logs namespace names agents [] s found (name_known agents) refl
                e in
            (
              take 50 (newer_first found),
              ground arith,
              length-take 50 (newer_first found),
              all_from_part names (take 50 (newer_first found)) found
                  (λ x m. kept _ found x (take-Mem 50 (newer_first found) x m)) from,
            )
        | inr bad ↦ absurd (ground arith)
      ]
