-- ===== src/Tls/Balance.antt =====
-- What the TLS probes make and free (tls/tls_session_ticket.cpp, tls/tls_false_start.cpp).
use cpp_demo.Prelude.{
  ℕ, ◌+◌, ◌≡◌, refl, Bool, true, false, Option, none, some, List, [], ◌∷◌, arith, ◌==◌,
  if◌then◌else◌,
}
use cpp_demo.Tls.{
  end_main, Call, ssl_new, get1_session, session_free, ssl_free, Handshake, Probe, delete_ssl,
  delete_session, keep_session,
}

-- How often an SSL was made and freed, and a session got and freed.
abbrev pub is : ℕ → ℕ → ℕ
is a b = if a == b then 1 else 0

abbrev pub made : ℕ → List Call → ℕ
made s [] = 0
made s (ssl_new t ∷ cs) = is t s + made s cs
made s (_ ∷ cs) = made s cs

abbrev pub freed : ℕ → List Call → ℕ
freed s [] = 0
freed s (ssl_free (some t) ∷ cs) = is t s + freed s cs
freed s (_ ∷ cs) = freed s cs

abbrev pub got : ℕ → List Call → ℕ
got i [] = 0
got i (get1_session j ∷ cs) = is j i + got i cs
got i (_ ∷ cs) = got i cs

abbrev pub given_back : ℕ → List Call → ℕ
given_back i [] = 0
given_back i (session_free j ∷ cs) = is j i + given_back i cs
given_back i (_ ∷ cs) = given_back i cs

abbrev pub held : ℕ → Option ℕ → ℕ
held i none = 0
held i (some j) = is j i

-- The SSLs made are those freed and the one in use; the sessions got are those given back and the one
-- kept.
pub record Balanced (ssl : Option ℕ) (c : Probe) : Type 0 where
  pub ssls : (s : ℕ) → made s c.calls ≡ freed s c.calls + held s ssl
  pub sessions : (i : ℕ) → got i c.calls ≡ given_back i c.calls + held i c.session

pub keep_session-Balanced :
    (ssl ticket : Option ℕ) (c : Probe) → Balanced ssl c → Balanced ssl (keep_session ticket c)
unfolding keep_session delete_session
keep_session-Balanced ssl ticket c v = record {
  ssls = λ s. ground (arith, v.ssls s);
  sessions = λ i. ground (arith, v.sessions i);
}

pub delete_ssl-Balanced :
    (ssl : Option ℕ) (ret : ℕ) (c : Probe) → Balanced ssl c → Balanced none (delete_ssl ssl ret c)
unfolding delete_ssl
delete_ssl-Balanced ssl ret c v = record {
  ssls = λ s. ground (arith, v.ssls s);
  sessions = λ i. ground (arith, v.sessions i);
}

-- Behind a call that makes a connection: its SSL is in use if it is returned.
abbrev pub left_open : Handshake → Bool → Option ℕ
left_open h ok = if ok then h.ssl else none

abbrev pub Settled : Handshake → Bool × Probe → Type 0
Settled h (ok, d) = Balanced (left_open h ok) d

module _ (h : Handshake) where
  pub refused :
      (c : Probe) → Balanced h.ssl c → Settled h (false, delete_ssl h.ssl h.shutdown_ret c)
  refused c v = delete_ssl-Balanced h.ssl h.shutdown_ret c v

  pub either :
      (ok : Bool) (a b : Bool × Probe) → Settled h a → Settled h b → Settled h (if ok then a else b)
  either true a b x y = x
  either false a b x y = y

-- Behind end_main no session is kept.
pub end_main-Balanced : (ssl : Option ℕ) (c : Probe) → Balanced ssl c → Balanced ssl (end_main c)
unfolding end_main delete_session
end_main-Balanced ssl c v = record {
  ssls = λ s. ground (arith, v.ssls s);
  sessions = λ i. ground (arith, v.sessions i);
}

pub end_main_lem :
    (c : Probe)
    → ((end_main c).session ≡ none) × ((end_main c).fds ≡ c.fds) × ((end_main c).ends ≡ c.ends)
unfolding end_main delete_session
end_main_lem c = (refl, ground arith, ground arith)
