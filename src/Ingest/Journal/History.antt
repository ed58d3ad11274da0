-- ===== src/Ingest/Journal/History.antt =====
-- Journals read from their last event backwards: the gates that a change has passed, and what the
-- last hash determines.
use web_comunidad_solar.Prelude.{
  ◌≡◌, refl, sym, ap, ◌∙◌, arith, true, none, some, List, [], ◌∷◌, first, last, last_or, ◌⊎◌, inl,
  inr, subst,
}
use mathlib.Core.List.{reverse, reverse_aux, reverse-reverse}
use web_comunidad_solar.Json.{Json}
use web_comunidad_solar.Ingest.Failure.{ok}
use web_comunidad_solar.Ingest.Platform.{Platform}
use web_comunidad_solar.Ingest.Domain.{
  ChangeState, received, gate1_approved, generated, validated, gate2_approved, published,
  allowed_transition, is_resume_state,
}
use web_comunidad_solar.Ingest.Journal.{
  JournalEvent, previous_hash, event_hash, unsigned_event, verify_journal_events,
}
use web_comunidad_solar.Ingest.Journal.Chain.{
  IsLinked, IsChain, Moves, starts, recovers, retries, advances,
}
use web_comunidad_solar.Ingest.Journal.Verified.{verify_journal_events-IsChain}

abbrev pub IsHistory : Platform → List JournalEvent → Type 0
IsHistory p [] = Unit
IsHistory p (e ∷ es) = IsLinked p (first es) e × IsHistory p es

reverse_aux-IsHistory :
    (p : Platform) (es before : List JournalEvent)
    → IsHistory p before
    → IsChain p (first before) es
    → IsHistory p (reverse_aux es before)
reverse_aux-IsHistory p [] before h c = h
reverse_aux-IsHistory p (e ∷ es) before h (l, c) = reverse_aux-IsHistory p es (e ∷ before) (l, h) c

pub reverse-IsHistory :
    (p : Platform) (es : List JournalEvent) → IsChain p none es → IsHistory p (reverse es)
reverse-IsHistory p es c = reverse_aux-IsHistory p es [] tt c

-- The states in the list were entered, in that order backwards, other events between them aside.
abbrev pub Entered : List ChangeState → List JournalEvent → Type 0
Entered [] es = Unit
Entered (s ∷ ss) [] = ⊥
Entered (s ∷ ss) (e ∷ es) = ((e.to ≡ s) × Entered ss es) ⊎ Entered (s ∷ ss) es

-- What a change in a state must have entered before.
abbrev pub gates_before : ChangeState → List ChangeState
gates_before generated = gate1_approved ∷ []
gates_before validated = generated ∷ gate1_approved ∷ []
gates_before gate2_approved = validated ∷ generated ∷ gate1_approved ∷ []
gates_before published = gate2_approved ∷ validated ∷ generated ∷ gate1_approved ∷ []
gates_before _ = []

step-Entered :
    (s t : ChangeState) (es : List JournalEvent)
    → allowed_transition s t ≡ true
    → Entered (s ∷ gates_before s) es
    → Entered (gates_before t) es
unfolding allowed_transition
step-Entered gate1_approved generated es h k = k
step-Entered generated validated es h k = k
step-Entered validated gate2_approved es h k = k
step-Entered gate2_approved published es h k = k
step-Entered s t es h k = ground arith

resume-Entered :
    (t : ChangeState) (es : List JournalEvent)
    → is_resume_state t ≡ true
    → Entered (gates_before t) es
resume-Entered received es h = tt
resume-Entered t es h = ground arith

Entered-cons :
    (ss : List ChangeState) (e : JournalEvent) (es : List JournalEvent)
    → Entered ss es
    → Entered ss (e ∷ es)
Entered-cons [] e es h = tt
Entered-cons (s ∷ ss) e es h = inr h

Entered-tail :
    (s : ChangeState) (ss : List ChangeState) (es : List JournalEvent)
    → Entered (s ∷ ss) es
    → Entered ss es
Entered-tail s ss [] h = absurd h
Entered-tail s ss (e ∷ es) (inl (same, h)) = Entered-cons ss e es h
Entered-tail s ss (e ∷ es) (inr h) = Entered-cons ss e es (Entered-tail s ss es h)

history-Entered :
    (p : Platform) (e : JournalEvent) (es : List JournalEvent)
    → IsHistory p (e ∷ es)
    → Entered (e.to ∷ gates_before e.to) (e ∷ es)
history-Entered p e [] (l, h) = inl (refl, from_start e l.moved)
  where
    from_start : (e : JournalEvent) → Moves e none → Entered (gates_before e.to) []
    from_start e (starts a b c d) = rw b tt
history-Entered p e (f ∷ es) (l, h) = inl (refl, after e l.moved (history-Entered p f es h))
  where
    after :
        (e : JournalEvent)
        → Moves e (some f)
        → Entered (f.to ∷ gates_before f.to) (f ∷ es)
        → Entered (gates_before e.to) (f ∷ es)
    after e (recovers a b same) k = rw same (Entered-tail f.to (gates_before f.to) (f ∷ es) k)
    after e (retries a b c resume) k = resume-Entered e.to (f ∷ es) resume
    after e (advances a b c step) k = step-Entered f.to e.to (f ∷ es) step k

first-reverse_aux :
    (es before : List JournalEvent) → first (reverse_aux es before) ≡ last_or (first before) es
first-reverse_aux [] before = refl
first-reverse_aux (e ∷ es) before = first-reverse_aux es (e ∷ before)

IsHistory-Entered :
    (p : Platform) (es : List JournalEvent) (e : JournalEvent)
    → IsHistory p es
    → first es ≡ some e
    → Entered (e.to ∷ gates_before e.to) es
IsHistory-Entered p [] e h at_end = cc
IsHistory-Entered p (f ∷ es) e h at_end =
    let same : f ≡ e = cc at_end in
    subst (λ x. Entered (x.to ∷ gates_before x.to) (f ∷ es)) same (history-Entered p f es h)

-- A verified journal whose last event is `e` entered, before the state of `e` and in this order,
-- the states that lead to it: a published change passed gate 2 after it was validated, after it was
-- generated, after it was in the state of gate 1.
pub verified-Entered :
    (p : Platform) (values : List Json) (es : List JournalEvent) (e : JournalEvent)
    → verify_journal_events p values ≡ ok es
    → last es ≡ some e
    → Entered (e.to ∷ gates_before e.to) (reverse es)
verified-Entered p values es e h at_end =
    IsHistory-Entered p (reverse es) e
      (reverse-IsHistory p es (verify_journal_events-IsChain p values es h).0)
      (first-reverse_aux es [] ∙ at_end)

-- Two histories whose last hashes agree are the same, unless two events in them collide.
abbrev pub NoCollision : Platform → List JournalEvent → List JournalEvent → Type 0
NoCollision p [] fs = Unit
NoCollision p (e ∷ es) [] = Unit
NoCollision p (e ∷ es) (f ∷ fs) =
    (event_hash p (unsigned_event e) ≡ event_hash p (unsigned_event f)
      → unsigned_event e ≡ unsigned_event f)
    × NoCollision p es fs

event_path :
    {e f : JournalEvent}
    → unsigned_event e ≡ unsigned_event f
    → e.event_sha256 ≡ f.event_sha256
    → e ≡ f
event_path d h = λ i. record { draft = d i; event_sha256 = h i }

history_unique :
    (p : Platform) (es fs : List JournalEvent)
    → NoCollision p es fs
    → IsHistory p es
    → IsHistory p fs
    → previous_hash (first es) ≡ previous_hash (first fs)
    → es ≡ fs
history_unique p [] [] n h k same = refl
history_unique p [] (f ∷ fs) n h k same = cc
history_unique p (e ∷ es) [] n h k same = cc
history_unique p (e ∷ es) (f ∷ fs) (n, ns) (l, h) (m, k) same =
    let hashes : e.event_sha256 ≡ f.event_sha256 = cc in
    let drafts : unsigned_event e ≡ unsigned_event f = n (sym l.sealed ∙ hashes ∙ m.sealed) in
    let rest : es ≡ fs =
      history_unique p es fs ns h k
        (sym l.chained ∙ ap (λ d. d.previous_event_sha256) drafts ∙ m.chained) in
    cc (event_path drafts hashes, rest)

-- Two verified journals that end with the same hash are the same journal, unless two of their
-- events at the same distance from the end differ and have the same hash.
verified_unique :
    (p : Platform) (values others : List Json) (es fs : List JournalEvent)
    → verify_journal_events p values ≡ ok es
    → verify_journal_events p others ≡ ok fs
    → NoCollision p (reverse es) (reverse fs)
    → previous_hash (last es) ≡ previous_hash (last fs)
    → es ≡ fs
verified_unique p values others es fs h k n same =
    let back : reverse es ≡ reverse fs =
      history_unique p (reverse es) (reverse fs) n
        (reverse-IsHistory p es (verify_journal_events-IsChain p values es h).0)
        (reverse-IsHistory p fs (verify_journal_events-IsChain p others fs k).0)
        (ap previous_hash (first-reverse_aux es [])
          ∙ same
          ∙ ap previous_hash (sym (first-reverse_aux fs []))) in
    sym (reverse-reverse es) ∙ ap reverse back ∙ reverse-reverse fs
