-- ===== src/Ledger/Runs.antt =====
-- What a run of mcp/ground-control/lib/release-identity.js has done where it ends well.
use ground_control.Ledger.Calls.{
  ◌>>=◌, done, step_on, Run, Result, refused, call, threw, Refusal, of_option, Call,
}
use ground_control.Prelude.{refl, arith, ◌≡◌, ap, Bool, some, ◌≢◌, Option, true, none, false}
use ground_control.Ledger.Fold.{Read, read_ok, malformed, unavailable}
use ground_control.Ledger.Operation.{of_read, require}

pub done_inj : {A : Type 0} (a b : A) → done a ≡ done b → a ≡ b
done_inj a b h = cc

pub not_done : {A : Type 0} {e : Refusal} (a : A) → refused e ≢ done a
not_done a h = ground (arith, h)

pub of_read-done : {A : Type 0} (m : Read A) (a : A) → of_read m ≡ done a → m ≡ read_ok a
unfolding of_read
of_read-done (read_ok b) a h = cc
of_read-done malformed a h = cc
of_read-done unavailable a h = cc

step_lem :
    {W A B : Type 0} (f : A → Run W B) (x : W × Result A) (w' : W) {b : B}
    → step_on f x.0 x.1 ≡ (w', done b)
    → (v : W) × (a : A) × (x ≡ (v, done a)) × (f a v ≡ (w', done b))
unfolding step_on
step_lem f (v, done a) w' h = (v, a, refl, h)
step_lem f (v, refused e) w' h = absurd (ground (arith, ap (λ x. x.1) h))
step_lem f (v, threw) w' h = absurd (ground (arith, ap (λ x. x.1) h))

pub bind-done :
    {W A B : Type 0} (m : Run W A) (f : A → Run W B) (w w' : W) {b : B}
    → (m >>= f) w ≡ (w', done b)
    → (v : W) × (a : A) × (m w ≡ (v, done a)) × (f a v ≡ (w', done b))
unfolding ◌>>=◌
bind-done m f w w' h = step_lem f (m w) w' h

answered_some :
    {W A : Type 0} (x : W × Option A) (w' : W) (a : A)
    → Path (W × Result A) (x.0, of_option x.1) (w', done a)
    → x ≡ (w', some a)
unfolding of_option
answered_some (w, some b) w' a h = cc
answered_some (w, none) w' a h = absurd (ground (arith, ap (λ x. x.1) h))

pub call-done :
    {W A : Type 0} (c : Call W A) (w w' : W) (a : A) → call c w ≡ (w', done a) → c w ≡ (w', some a)
unfolding of_option
call-done c w w' a h = answered_some (c w) w' a h

pub require-done :
    {W : Type 0} (b : Bool) (e : Refusal) (w w' : W) (u : Unit {0})
    → require b e w ≡ (w', done u)
    → (b ≡ true) × (w ≡ w')
require-done true e w w' u h = (refl, ap (λ x. x.0) h)
require-done false e w w' u h = absurd (not_done u (ap (λ x. x.1) h))
