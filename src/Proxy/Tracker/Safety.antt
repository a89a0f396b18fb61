-- ===== src/Proxy/Tracker/Safety.antt =====
-- internal/proxy/drain.go: what any interleaving of accepts, closes and `CloseAll` keeps.
use lazywrap.Base.{
  ℕ, suc, ◌≤◌, ◌<◌, ◌≡◌, refl, inl, inr, Bool, true, false, List, [], ◌∷◌, Option, some, arith,
  Bool-cases, Option-cases, ◌||◌, ◌∙◌,
}
use lazywrap.Base.Counts.{update}
use lazywrap.Proxy.Tracker.{
  ConnState, absent, rejected, live, removing, removed, ConnectionTracker, new_tracker,
  signal_locked, add, remove, accept, begin_close, end_close, begin_close_all, set_state, Event,
  accepts, closes_all, closes, removes, step, run,
}

-- It is in `conns`.
abbrev pub is_tracked : ConnState → Bool
is_tracked live = true
is_tracked removing = true
is_tracked _ = false

pub record IsValid (t : ConnectionTracker) : Type 0 where
  -- every channel before `changed` is closed, and no other
  pub signals : (k : ℕ) → (t.signalled k ≡ true) → k < t.changed
  pub past : (k : ℕ) → k < t.changed → t.signalled k ≡ true
  pub tracked : (c : ℕ) → t.conns c ≡ is_tracked (t.states c)
  pub fresh : (c : ℕ) → t.accepted ≤ c → t.states c ≡ absent
  pub dooms : (c : ℕ) → t.closed ≡ true → t.conns c ≡ true → t.doomed c ≡ true

record Answers (o : Option ConnectionTracker) : Type 0 where
  out : ConnectionTracker
  answers : o ≡ some out
  valid : IsValid out

not_signalled : (t : ConnectionTracker) → IsValid t → t.signalled t.changed ≡ false
not_signalled t v = ground (arith, v.signals t.changed)

new_tracker-IsValid : IsValid new_tracker
unfolding new_tracker
new_tracker-IsValid = record {
  signals = λ k h. ground arith;
  past = λ k h. ground arith;
  tracked = λ c. refl;
  fresh = λ c h. refl;
  dooms = λ c h i. ground arith;
}

accept-Answers : (t : ConnectionTracker) → IsValid t → Answers (accept t)
unfolding accept add signal_locked
accept-Answers t v = elim (Bool-cases t.closed) [
  | inl e ↦ record {
    out = set_state t.accepted rejected (record t { accepted = suc t.accepted });
    answers = ground (arith, e);
    valid = record {
      signals = v.signals;
      past = v.past;
      tracked = λ c. ground (arith, v.tracked c, v.fresh c);
      fresh = λ c h. ground (arith, v.fresh c);
      dooms = v.dooms;
    };
  }
  | inr e ↦ record {
    out = set_state t.accepted live (record t {
      accepted = suc t.accepted;
      conns = update t.conns t.accepted true;
      signalled = update t.signalled t.changed true;
      changed = suc t.changed;
    });
    answers = ground (arith, e, not_signalled t v);
    valid = record {
      signals = λ k h. ground (arith, v.signals k);
      past = λ k h. ground (arith, v.past k);
      tracked = λ c. ground (arith, v.tracked c);
      fresh = λ c h. ground (arith, v.fresh c);
      dooms = λ c h i. ground (arith, e);
    };
  }
]

begin_close-IsValid :
    (c : ℕ) (t : ConnectionTracker)
    → IsValid t
    → (s : ConnState) → t.states c ≡ s
    → IsValid (begin_close s c t)
unfolding begin_close
begin_close-IsValid c t v live e = record {
  signals = v.signals;
  past = v.past;
  tracked = λ d. ground (arith, e, v.tracked d);
  fresh = λ d h. ground (arith, e, v.fresh d);
  dooms = v.dooms;
}
begin_close-IsValid c t v absent e = v
begin_close-IsValid c t v rejected e = v
begin_close-IsValid c t v removing e = v
begin_close-IsValid c t v removed e = v

end_close-Answers :
    (c : ℕ) (t : ConnectionTracker)
    → IsValid t
    → (s : ConnState) → t.states c ≡ s
    → Answers (end_close s c t)
unfolding end_close remove signal_locked
end_close-Answers c t v removing e = record {
  out = record (set_state c removed t) {
    conns = update t.conns c false;
    signalled = update t.signalled t.changed true;
    changed = suc t.changed;
  };
  answers = ground (arith, not_signalled t v);
  valid = record {
    signals = λ k h. ground (arith, v.signals k);
    past = λ k h. ground (arith, v.past k);
    tracked = λ d. ground (arith, v.tracked d);
    fresh = λ d h. ground (arith, e, v.fresh d);
    dooms = λ d h i. ground (arith, v.dooms d);
  };
}
end_close-Answers c t v absent e = record { out = t; answers = refl; valid = v }
end_close-Answers c t v rejected e = record { out = t; answers = refl; valid = v }
end_close-Answers c t v live e = record { out = t; answers = refl; valid = v }
end_close-Answers c t v removed e = record { out = t; answers = refl; valid = v }

begin_close_all-IsValid : (t : ConnectionTracker) → IsValid t → IsValid (begin_close_all t)
unfolding begin_close_all
begin_close_all-IsValid t v = record {
  signals = v.signals;
  past = v.past;
  tracked = v.tracked;
  fresh = v.fresh;
  dooms = λ c h i. ground (arith, i);
}

step-Answers : (e : Event) (t : ConnectionTracker) → IsValid t → Answers (step e t)
unfolding step
step-Answers accepts t v = accept-Answers t v
step-Answers closes_all t v = record {
  out = _;
  answers = refl;
  valid = begin_close_all-IsValid t v;
}
step-Answers (closes c) t v = record {
  out = _;
  answers = refl;
  valid = begin_close-IsValid c t v (t.states c) refl;
}
step-Answers (removes c) t v = end_close-Answers c t v (t.states c) refl

run-Answers : (es : List Event) (t : ConnectionTracker) → IsValid t → Answers (run es t)
unfolding run
run-Answers [] t v = record { out = t; answers = refl; valid = v }
run-Answers (e ∷ es) t v =
    let a = step-Answers e t v in
    let b = run-Answers es a.out a.valid in
    record { out = b.out; answers = ground (arith, a.answers, b.answers); valid = b.valid }

abbrev pub is_close_all : Event → Bool
is_close_all closes_all = true
is_close_all _ = false

-- `CloseAll` was called.
abbrev pub has_close_all : List Event → Bool
has_close_all [] = false
has_close_all (e ∷ es) = is_close_all e || has_close_all es

begin_close-closed :
    (s : ConnState) (c : ℕ) (t : ConnectionTracker) → (begin_close s c t).closed ≡ t.closed
unfolding begin_close
begin_close-closed live c t = refl
begin_close-closed _ c t = refl

end_close-closed :
    (s : ConnState) (c : ℕ) (t u : ConnectionTracker)
    → end_close s c t ≡ some u
    → u.closed ≡ t.closed
unfolding end_close remove signal_locked
end_close-closed removing c t u h = ground arith
end_close-closed _ c t u h = ground arith

-- Only `CloseAll` closes the tracker, and it does.
step-closed :
    (e : Event) (t u : ConnectionTracker)
    → step e t ≡ some u
    → u.closed ≡ (t.closed || is_close_all e)
unfolding step accept add signal_locked begin_close_all
step-closed accepts t u h = ground arith
step-closed closes_all t u h = ground arith
step-closed (closes c) t u h = ground (arith, begin_close-closed (t.states c) c t)
step-closed (removes c) t u h = ground (arith, end_close-closed (t.states c) c t u)

run-closed :
    (es : List Event) (t u : ConnectionTracker)
    → run es t ≡ some u
    → u.closed ≡ (t.closed || has_close_all es)
unfolding run
run-closed [] t u h = ground arith
run-closed (e ∷ es) t u h = elim (Option-cases (step e t)) [
  | inl n ↦ absurd (ground (arith, n, h))
  | inr (w, x) ↦ ground (arith, step-closed e t w x, run-closed es w u (ground (arith, x, h)))
]

-- However accepts, closes and `CloseAll` interleave, no channel `changed` is closed twice, the current
-- one is not closed, and the tracked connections are those accepted whose `Close` did not get past `remove`;
-- once `CloseAll` was called, each of them is in the list of connections that it closes.
pub tracker_exact :
    (es : List Event)
    → (t : ConnectionTracker) × (run es new_tracker ≡ some t)
      × (t.signalled t.changed ≡ false)
      × ((c : ℕ) → t.conns c ≡ is_tracked (t.states c))
      × ((c : ℕ) → has_close_all es ≡ true → t.conns c ≡ true → t.doomed c ≡ true)
unfolding new_tracker
tracker_exact es =
    let a = run-Answers es new_tracker new_tracker-IsValid in
    let closed = run-closed es new_tracker a.out a.answers in
    (
      a.out,
      a.answers,
      not_signalled a.out a.valid,
      a.valid.tracked,
      λ c h i. a.valid.dooms c (closed ∙ h) i,
    )
