-- ===== src/Controller/Requests.antt =====
-- The requests that the parts of a reconciliation send, in order.
use mathlib.Core.Path.{subst}
use sunwukong.Base.{
  ok-inj, ◌≡◌, refl, ◌≢◌, ◌⊎◌, inl, inr, none, some, List, [], ◌∷◌, ◌++◌, All, All-append, arith,
  Result, ok, err, panic, >>=-eq-ok,
}
use sunwukong.Houmao.{Houmao}
use sunwukong.Status.{Sent}
use sunwukong.Xianqi.{Deployment, Call, update_object, XianqiClient, Calls, destroy_found}
use sunwukong.Controller.{and_then, calls_of}

pub and_then-eq-ok :
    (first : Calls) (rest : Result Calls) {calls : List Call}
    → and_then first rest ≡ ok (none, calls)
    → (more : List Call) × (first.0 ≡ none) × (rest ≡ ok (none, more)) × (calls ≡ first.1 ++ more)
unfolding and_then
and_then-eq-ok (some e, sent) rest h = absurd (ground arith)
and_then-eq-ok (none, sent) rest h =
    let ((e, more), run, h2) = >>=-eq-ok rest _ h in (more, refl, ground arith, ground arith)

-- Every request that was sent satisfies `P`.
pub and_then-All :
    (P : Call → Type 0) (first : Calls) (rest : Result Calls) {out : Calls}
    → and_then first rest ≡ ok out
    → All P first.1
    → ((o : Calls) → rest ≡ ok o → All P o.1)
    → All P out.1
unfolding and_then
and_then-All P (some e, sent) rest {out} h all next = subst (λ o. All P o.1) (ok-inj h) all
and_then-All P (none, sent) rest {out} h all next =
    let ((e, more), run, h2) = >>=-eq-ok rest _ h in
    subst (λ o. All P o.1) (ok-inj h2) (All-append P sent more all (next (e, more) run))

abbrev pub IsIn : Call → List Call → Type 0
IsIn call [] = ⊥
IsIn call (c ∷ calls) = (call ≡ c) ⊎ IsIn call calls

pub IsIn-append : (call : Call) (xs ys : List Call) → IsIn call xs → IsIn call (xs ++ ys)
IsIn-append call [] ys h = absurd h
IsIn-append call (c ∷ xs) ys (inl e) = inl e
IsIn-append call (c ∷ xs) ys (inr h) = inr (IsIn-append call xs ys h)

pub IsIn-append_right : (call : Call) (xs ys : List Call) → IsIn call ys → IsIn call (xs ++ ys)
IsIn-append_right call [] ys h = h
IsIn-append_right call (c ∷ xs) ys h = inr (IsIn-append_right call xs ys h)

-- No update of the object.
abbrev pub IsNotUpdate : Call → Type 0
IsNotUpdate call = (o : Houmao) → call ≢ update_object o

pub destroy_found-IsNotUpdate :
    (client : XianqiClient) (found : Result Deployment) {out : Calls}
    → destroy_found client found ≡ ok out
    → All IsNotUpdate out.1
unfolding destroy_found
destroy_found-IsNotUpdate client (err e) h = subst (λ o. All IsNotUpdate o.1) (ok-inj h) tt
destroy_found-IsNotUpdate client (ok d) h =
    subst (λ o. All IsNotUpdate o.1) (ok-inj h) ((λ o bad. cc), tt)
destroy_found-IsNotUpdate client (panic p) h = absurd (ground arith)

pub calls_of-IsNotUpdate : (sent : Sent) → All IsNotUpdate (calls_of sent).1
calls_of-IsNotUpdate (e, []) = tt
calls_of-IsNotUpdate (e, p ∷ ps) = ((λ o bad. cc), tt)
