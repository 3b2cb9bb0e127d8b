-- ===== src/Effects.antt =====
-- Calls that leave the program. A GraphQL executor or an SSH executor is asked for a reply to each
-- operation; its reply may depend on all operations that it was sent before. An action carries the
-- list of the operations sent so far, the newest first, and returns or throws an error message.
use better_unraid_mcp.Base.{Text, List, ◌∷◌, Option, none, some, ◌≡◌, refl}

pub data Attempt (A : Type 0) : Type 0 where
  returned : A → Attempt A
  thrown : Text → Attempt A

abbrev pub Action : Type 0 → Type 0 → Type 0
Action Op A = List Op → Attempt A × List Op

-- What stands behind an executor: any function of the operations sent so far and the new one.
abbrev pub Executor : (Op : Type 0) → (Op → Type 0) → Type 0
Executor Op Reply = List Op → (op : Op) → Attempt (Reply op)

abbrev pub pure : {Op A : Type 0} → A → List Op → Attempt A × List Op
pure a sent = (returned a, sent)

abbrev pub resume :
    {Op A B : Type 0} → Attempt A → List Op → (A → Action Op B) → Attempt B × List Op
resume (returned a) sent f = f a sent
resume (thrown e) sent f = (thrown e, sent)

infixl 5 ◌>>=◌ ◌>>◌
abbrev pub ◌>>=◌ : {Op A B : Type 0} → Action Op A → (A → Action Op B) → Action Op B
◌>>=◌ m f sent = let (r, sent') = m sent in resume r sent' f

abbrev pub ◌>>◌ : {Op A B : Type 0} → Action Op A → Action Op B → Action Op B
m >> k = m >>= λ _. k

-- `await client.execute(op)`
abbrev pub execute :
    {Op : Type 0} {Reply : Op → Type 0} → Executor Op Reply → (op : Op) → Action Op (Reply op)
execute client op sent = (client sent op, op ∷ sent)

abbrev pub handled : {A : Type 0} → (Text → A) → Attempt A → A
handled handler (returned a) = a
handled handler (thrown e) = handler e

-- `try { … } catch (error) { … }` around the whole of a handler.
abbrev pub try_catch : {Op A : Type 0} → Action Op A → (Text → A) → Action Op A
try_catch m handler sent = let (r, sent') = m sent in (returned (handled handler r), sent')

-- `if (refusal) { return refusal; }` before the rest of a handler.
abbrev pub guarded : {Op A : Type 0} → Option A → Action Op A → Action Op A
guarded (some refusal) m = pure refusal
guarded none m = m

-- A continuation that sends nothing leaves the list of operations as it is.
pub resume-pure :
    {Op A B : Type 0} (r : Attempt A) (sent : List Op) (f : A → B)
    → (resume r sent (λ a. pure (f a))).1 ≡ sent
resume-pure (returned a) sent f = refl
resume-pure (thrown e) sent f = refl

-- A guard either ends the handler with its refusal or lets the rest run.
pub guarded_cases {ℓ} :
    {Op A : Type 0} (Q : Attempt A × List Op → Type ℓ) (o : Option A) (m : Action Op A)
    (sent : List Op)
    → ((refusal : A) → o ≡ some refusal → Q (returned refusal, sent))
    → (o ≡ none → Q (m sent))
    → Q (guarded o m sent)
guarded_cases Q (some refusal) m sent refused passed = refused refusal refl
guarded_cases Q none m sent refused passed = passed refl
