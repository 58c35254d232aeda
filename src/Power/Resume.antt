-- ===== src/Power/Resume.antt =====
-- The recorded transitions are one chain from the first state to the present one.
use compute_kernel_python.Prelude.{
  String, ◌≡◌, refl, sym, true, List, [], ◌∷◌, ◌++◌, Bool-cases, inl, inr,
}
use compute_kernel_python.Power.{
  PowerState, running, suspended, Transition, PowerManager, init, transition, suspend, is_suspended,
  resume, shutdown, reboot,
}

-- Each transition starts where the one before it ended.
abbrev pub Chain : PowerState → List Transition → PowerState → Type 0
Chain a [] b = a ≡ b
Chain a (t ∷ ts) b = (t.old ≡ a) × Chain t.new_state ts b

-- Only a resume leads back to the running state, and only from suspension.
abbrev pub IsAllowed : Transition → Type 0
IsAllowed t = t.new_state ≡ running → t.old ≡ suspended

abbrev pub AllAllowed : List Transition → Type 0
AllAllowed [] = Unit
AllAllowed (t ∷ ts) = IsAllowed t × AllAllowed ts

pub data Call : Type 0 where
  do_suspend do_resume do_shutdown do_reboot : Call

abbrev pub perform : Call → PowerManager → PowerManager
perform do_suspend s = suspend s
perform do_resume s = resume s
perform do_shutdown s = shutdown s
perform do_reboot s = reboot s

abbrev pub run : List Call → PowerManager → PowerManager
run [] s = s
run (c ∷ cs) s = run cs (perform c s)

pub record IsValid (s : PowerManager) : Type 0 where
  pub chain : Chain running s.transitions s.state
  pub allowed : AllAllowed s.transitions

Chain-snoc :
    (a : PowerState) (ts : List Transition) (t : Transition)
    → Chain a ts t.old
    → Chain a (ts ++ t ∷ []) t.new_state
Chain-snoc a [] t c = (sym c, refl)
Chain-snoc a (x ∷ ts) t c = (c.0, Chain-snoc x.new_state ts t c.1)

AllAllowed-snoc :
    (ts : List Transition) (t : Transition)
    → AllAllowed ts
    → IsAllowed t
    → AllAllowed (ts ++ t ∷ [])
AllAllowed-snoc [] t a i = (i, tt)
AllAllowed-snoc (x ∷ ts) t a i = (a.0, AllAllowed-snoc ts t a.1 i)

transition-IsValid :
    (to : PowerState) (reason : String) (s : PowerManager)
    → (to ≡ running → s.state ≡ suspended)
    → IsValid s
    → IsValid (transition to reason s)
unfolding transition
transition-IsValid to reason s ok v = record {
  chain = Chain-snoc running s.transitions _ v.chain;
  allowed = AllAllowed-snoc s.transitions _ v.allowed ok;
}

perform-IsValid : (c : Call) (s : PowerManager) → IsValid s → IsValid (perform c s)
unfolding suspend resume shutdown reboot
perform-IsValid do_suspend s v = transition-IsValid _ _ s (λ e. absurd (cc)) v
perform-IsValid do_resume s v = elim (Bool-cases (is_suspended s.state)) [
  | inl e ↦ rw (e, resume) (transition-IsValid running _ s (λ h. resumed s.state e) v)
  | inr e ↦ rw (e, resume) v
]
  where
    resumed : (p : PowerState) → is_suspended p ≡ true → p ≡ suspended
    resumed running e = absurd (cc)
    resumed suspended e = refl
    resumed PowerState.hibernated e = absurd (cc)
    resumed PowerState.off e = absurd (cc)
    resumed PowerState.rebooting e = absurd (cc)
perform-IsValid do_shutdown s v = transition-IsValid _ _ s (λ e. absurd (cc)) v
perform-IsValid do_reboot s v = transition-IsValid _ _ s (λ e. absurd (cc)) v

run_lem : (cs : List Call) (s : PowerManager) → IsValid s → IsValid (run cs s)
run_lem [] s v = v
run_lem (c ∷ cs) s v = run_lem cs (perform c s) (perform-IsValid c s v)

-- After any calls on a new power manager, the recorded transitions form one chain from the running
-- state to the present state, in which the running state is entered only from suspension.
pub transitions_lem : (cs : List Call) → IsValid (run cs init)
transitions_lem cs = run_lem cs init (record { chain = refl; allowed = tt })
