-- ===== src/SegQueue.antt =====
-- The interface of `crossbeam_queue::SegQueue`, which src/pool/mod.rs imports: an unbounded FIFO
-- queue. `to_list` names its contents, oldest first, and the laws state what its documentation says.
use netconnpool_rust.Base.{◌≡◌, refl, Option, none, some, List, [], ◌∷◌, ◌++◌}

abbrev pub unpop : {A Queue : Type 0} → (Queue → List A) → Option (A × Queue) → List A
unpop contents none = []
unpop contents (some (a, q)) = a ∷ contents q

pub record SegQueue (A : Type 0) (Queue : Type 0) : Type 0 where
  pub new : Queue
  pub push : Queue → A → Queue
  pub pop : Queue → Option (A × Queue)
  pub to_list : Queue → List A
  pub to_list-new : to_list new ≡ []
  pub to_list-push : (q : Queue) (a : A) → to_list (push q a) ≡ to_list q ++ a ∷ []
  pub to_list-pop : (q : Queue) → to_list q ≡ unpop to_list (pop q)

abbrev pub pop_list : {A : Type 0} → List A → Option (A × List A)
pop_list [] = none
pop_list (x ∷ xs) = some (x, xs)

pub pop_list_lem : {A : Type 0} (xs : List A) → xs ≡ unpop (λ ys. ys) (pop_list xs)
pop_list_lem [] = refl
pop_list_lem (x ∷ xs) = refl

-- A list is such a queue.
instance abbrev pub list_queue : {A : Type 0} → SegQueue A (List A)
list_queue = record {
  new = [];
  push = λ q a. q ++ a ∷ [];
  pop = pop_list;
  to_list = λ q. q;
  to_list-new = refl;
  to_list-push = λ q a. refl;
  to_list-pop = pop_list_lem;
}
