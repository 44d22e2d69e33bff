-- ===== src/Tdlib/Authorization/Safety.antt =====
-- What holds of an account however its goroutines and calls interleave.
use tgplane.Common.{
  string_key, ℕ, String, List, [], ◌∷◌, Option, none, some, true, false, Result, ok, err, ◌≡◌, ◌≢◌,
  refl, ◌⊎◌, inl, inr, ◌≤◌, length, length-append, arith, ap, sym, ◌∙◌, ◌++◌,
}
use mathlib.Core.Option.{some-injective}
use tgplane.Tdlib.{
  SessionConfig, AuthState, wait_code, wait_password, ready, error, closed, Client, new_account,
  send_code, send_password, offer,
}
use tgplane.Tdlib.Authorization.{
  wants_code, wants_password, is_ready, another, Account, authorized, monitor, Step, returns,
  reports, submits_code, submits_password, takes_code, takes_password, started, Steps, done, then_,
}

-- A channel that holds no more than its capacity.
abbrev pub IsOpen : ℕ → Option (List String) → Type 0
IsOpen capacity ch = (waiting : List String) × (ch ≡ some waiting) × (length waiting ≤ capacity)

taken-IsOpen :
    (capacity : ℕ) (ch : Option (List String)) (text : String) (rest : List String)
    → ch ≡ some (text ∷ rest)
    → IsOpen capacity ch
    → IsOpen capacity (some rest)
taken-IsOpen capacity ch text rest taken (waiting, e, l) =
    (rest, refl, omega (arith, ap length (some-injective (text ∷ rest) waiting (sym taken ∙ e))))

module _ {T E : Type 0} where
  -- `NewClient` is still running; or it has succeeded, and the state is not "error"; or it has failed,
  -- and there is no client, and never will be.
  abbrev pub IsSettled : Account T E → Type 0
  IsSettled a =
      ((a.pending ≡ true)
        × (a.client.tdlib ≡ none)
        × (a.client.auth_err ≡ none)
        × (a.client.auth_state ≢ error))
      ⊎ (((t : T) × (a.pending ≡ false)
            × (a.client.tdlib ≡ some t)
            × (a.client.auth_err ≡ none)
            × (a.client.auth_state ≢ error))
          ⊎ ((e : E) × (a.pending ≡ false)
              × (a.client.tdlib ≡ none)
              × (a.client.auth_err ≡ some e)))

  pub record IsValid (capacity : ℕ) (a : Account T E) : Type 0 where
    pub settled : IsSettled a
    pub never_closed : a.client.auth_state ≢ closed
    pub codes : IsOpen capacity a.client.code_ch
    pub passwords : IsOpen capacity a.client.password_ch

  started-IsValid : (capacity : ℕ) (cfg : SessionConfig) → IsValid capacity (started cfg)
  unfolding new_account
  started-IsValid capacity cfg = record {
    settled = inl (refl, refl, refl, λ p. cc);
    never_closed = λ p. cc;
    codes = ([], refl, omega arith);
    passwords = ([], refl, omega arith);
  }

  -- A report that is no error.
  monitor-IsSettled :
      (a : Account T E) (state : AuthState)
      → state ≢ error
      → IsSettled a
      → IsSettled (record a { client = record a.client { auth_state = state } })
  monitor-IsSettled a state fine h = elim h [
    | inl (p, t, e, _) ↦ inl (p, t, e, fine)
    | inr (inl (t, p, c, e, _)) ↦ inr (inl (t, p, c, e, fine))
    | inr (inr f) ↦ inr (inr f)
  ]

  -- `NewClient` returns once.
  authorized-IsSettled :
      (a : Account T E) (r : Result E T)
      → a.pending ≡ true
      → IsSettled a
      → IsSettled (record { client = authorized r a.client; pending = false })
  unfolding authorized
  authorized-IsSettled a r p (inr (inl (t, q, _, _, _))) = absurd (ground arith)
  authorized-IsSettled a r p (inr (inr (e, q, _, _))) = absurd (ground arith)
  authorized-IsSettled a (ok t) p (inl (_, _, clean, _)) =
      inr (inl (t, refl, refl, clean, λ q. absurd (ground arith)))
  authorized-IsSettled a (err e) p (inl (_, unset, _, _)) = inr (inr (e, refl, unset, refl))

  send_code-IsOpen :
      (capacity : ℕ) (code : String) (c d : Client T E)
      → send_code capacity code c ≡ ok d
      → IsOpen capacity c.code_ch
      → IsOpen capacity d.code_ch
  unfolding send_code offer
  send_code-IsOpen capacity code c d sent (waiting, e, l) =
      (waiting ++ code ∷ [], ground arith, ground (arith, length-append waiting (code ∷ [])))

  send_password-IsOpen :
      (capacity : ℕ) (password : String) (c d : Client T E)
      → send_password capacity password c ≡ ok d
      → IsOpen capacity c.password_ch
      → IsOpen capacity d.password_ch
  unfolding send_password offer
  send_password-IsOpen capacity password c d sent (waiting, e, l) = (
    waiting ++ password ∷ [],
    ground arith,
    ground (arith, length-append waiting (password ∷ [])),
  )

  Step-IsValid :
      (capacity : ℕ) {a b : Account T E}
      → Step capacity a b
      → IsValid capacity a
      → IsValid capacity b
  unfolding authorized monitor
  Step-IsValid capacity {a} (returns (ok t) p) v = record {
    settled = authorized-IsSettled a (ok t) p v.settled;
    never_closed = λ q. absurd (ground arith);
    codes = v.codes;
    passwords = v.passwords;
  }
  Step-IsValid capacity {a} (returns (err e) p) v = record {
    settled = authorized-IsSettled a (err e) p v.settled;
    never_closed = λ q. absurd (ground arith);
    codes = v.codes;
    passwords = v.passwords;
  }
  Step-IsValid capacity {a} (reports wants_code) v = record {
    settled = monitor-IsSettled a wait_code (λ q. absurd (ground arith)) v.settled;
    never_closed = λ q. absurd (ground arith);
    codes = v.codes;
    passwords = v.passwords;
  }
  Step-IsValid capacity {a} (reports wants_password) v = record {
    settled = monitor-IsSettled a wait_password (λ q. absurd (ground arith)) v.settled;
    never_closed = λ q. absurd (ground arith);
    codes = v.codes;
    passwords = v.passwords;
  }
  Step-IsValid capacity {a} (reports is_ready) v = record {
    settled = monitor-IsSettled a ready (λ q. absurd (ground arith)) v.settled;
    never_closed = λ q. absurd (ground arith);
    codes = v.codes;
    passwords = v.passwords;
  }
  Step-IsValid capacity (reports another) v = v
  Step-IsValid capacity {a} (submits_code seen code c sent) v = record {
    settled = v.settled;
    never_closed = v.never_closed;
    codes = send_code-IsOpen capacity code (record a.client { auth_state = seen }) c sent v.codes;
    passwords = v.passwords;
  }
  Step-IsValid capacity {a} (submits_password seen password c sent) v = record {
    settled = v.settled;
    never_closed = v.never_closed;
    codes = v.codes;
    passwords =
        send_password-IsOpen capacity password (record a.client { auth_state = seen }) c sent
          v.passwords;
  }
  Step-IsValid capacity {a} (takes_code code rest p) v = record {
    settled = v.settled;
    never_closed = v.never_closed;
    codes = taken-IsOpen capacity a.client.code_ch code rest p v.codes;
    passwords = v.passwords;
  }
  Step-IsValid capacity {a} (takes_password password rest p) v = record {
    settled = v.settled;
    never_closed = v.never_closed;
    codes = v.codes;
    passwords = taken-IsOpen capacity a.client.password_ch password rest p v.passwords;
  }

  pub Steps-IsValid :
      (capacity : ℕ) {a b : Account T E}
      → Steps capacity a b
      → IsValid capacity a
      → IsValid capacity b
  Steps-IsValid capacity done v = v
  Steps-IsValid capacity (then_ r s) v = Step-IsValid capacity s (Steps-IsValid capacity r v)

  -- However the goroutines and the calls interleave, an account that starts is always in one of three
  -- phases: `NewClient` runs, and there is neither client nor error; it has succeeded, with a client
  -- and no error; or it has failed, with an error and no client. Only in the last can its state be
  -- "error", it is never "closed", and no channel is over its capacity.
  pub account_safe :
      (capacity : ℕ) (cfg : SessionConfig) (a : Account T E)
      → Steps capacity (started cfg) a
      → IsValid capacity a
  account_safe capacity cfg a run = Steps-IsValid capacity run (started-IsValid capacity cfg)

  -- Once `NewClient` has returned, the client and the error are settled.
  pub Step-frozen :
      (capacity : ℕ) {a b : Account T E}
      → Step capacity a b
      → a.pending ≡ false
      → (b.pending ≡ false) × (b.client.tdlib ≡ a.client.tdlib)
  unfolding monitor
  Step-frozen capacity (returns r p) returned = absurd (ground arith)
  Step-frozen capacity (reports wants_code) returned = (returned, refl)
  Step-frozen capacity (reports wants_password) returned = (returned, refl)
  Step-frozen capacity (reports is_ready) returned = (returned, refl)
  Step-frozen capacity (reports another) returned = (returned, refl)
  Step-frozen capacity (submits_code seen code c sent) returned = (returned, refl)
  Step-frozen capacity (submits_password seen password c sent) returned = (returned, refl)
  Step-frozen capacity (takes_code code rest p) returned = (returned, refl)
  Step-frozen capacity (takes_password password rest p) returned = (returned, refl)

  pub Steps-frozen :
      (capacity : ℕ) {a b : Account T E}
      → Steps capacity a b
      → a.pending ≡ false
      → (b.pending ≡ false) × (b.client.tdlib ≡ a.client.tdlib)
  Steps-frozen capacity done returned = (returned, refl)
  Steps-frozen capacity (then_ r s) returned =
      let (before, same) = Steps-frozen capacity r returned in
      let (after, still) = Step-frozen capacity s before in (after, still ∙ same)
