-- ===== src/Ownership/Holder.antt =====
-- rvalue_reference/demo1_deep_copy.cpp, demo1_move_constructor.cpp and demo1_shallow_copy.cpp: the
-- class A, which owns an int through `m_ptr`, with a copy constructor of its own, with a move
-- constructor too, and with the copy constructor that the compiler makes.
use cpp_example.Common.{
  ℕ, Bool, true, false, Option, none, some, List, [], ◌∷◌, ◌++◌, length, get_elem?, set,
}
use cpp_example.Common.Outcome.{Outcome, done, overrun, ◌>>=◌}
use cpp_example.Ownership.Blocks.{Blocks, fetch, release}
use cpp_example.Ownership.Scope.{destroy_all}

-- What the program prints; a destructor prints the address and the value.
pub data Line : Type 0 where
  constructor_a copy_constructor_a move_constructor_a : ℕ → Line
  destructor_a : ℕ → ℕ → Line
  ready_return come_here main_finish : Line
  int_value : ℕ → Line

pub record World : Type 0 where
  pub blocks : Blocks ℕ
  pub printed : List Line

-- `m_ptr`, the only field; `none` is nullptr.
abbrev pub Holder : Type 0
Holder = Option ℕ

abbrev pub prints : Line → World → World
prints l w = record w { printed = w.printed ++ l ∷ [] }

-- `*m_ptr`.
unfoldable pub read_int : Holder → World → Outcome ℕ
read_int none w = overrun
read_int (some a) w = fetch a w.blocks

-- `new int(v)`.
abbrev pub new_int : ℕ → World → World
new_int v w = record w { blocks = w.blocks ++ some v ∷ [] }

-- `delete m_ptr` of a pointer that was read.
unfoldable pub delete_int : Holder → World → Outcome World
delete_int none w = done w
delete_int (some a) w = release a w.blocks >>= λ h. done (record w { blocks = h })

-- `A(new int(v))`.
unfoldable pub construct : ℕ → World → Outcome (Holder × World)
construct v w = do
  let w1 = new_int v w
  read ← read_int (some (length w.blocks)) w1
  done (some (length w.blocks), prints (constructor_a read) w1)

-- A constructor from another object returns the new object, and the other one after it.
abbrev pub Transfer : Type 0
Transfer = Holder → World → Outcome (Holder × Holder × World)

unfoldable pub copy_construct : Transfer
copy_construct a w = do
  v ← read_int a w
  let w1 = new_int v w
  read ← read_int (some (length w.blocks)) w1
  done (some (length w.blocks), a, prints (copy_constructor_a read) w1)

unfoldable pub move_construct : Transfer
move_construct a w = read_int a w >>= λ read. done (a, none, prints (move_constructor_a read) w)

-- The copy constructor that the compiler makes copies the pointer.
abbrev pub shallow_copy : Transfer
shallow_copy a w = done (a, a, w)

abbrev address : Holder → ℕ
address none = 0
address (some a) = a

unfoldable pub destruct : Holder → World → Outcome World
destruct a w = read_int a w >>= λ read. delete_int a (prints (destructor_a (address a) read) w)

unfoldable pub guarded_destruct : Holder → World → Outcome World
guarded_destruct none w = done w
guarded_destruct (some a) w =
    read_int (some a) w >>= λ read. delete_int (some a) (prints (destructor_a a read) w)

-- The constructor that `return` and `std::move` use, the one for a copy of an lvalue, and the
-- destructor.
pub record ClassA : Type 0 where
  pub transfer : Transfer
  pub copy : Transfer
  pub destroy : Holder → World → Outcome World

abbrev pub deep : ClassA
deep = record { transfer = copy_construct; copy = copy_construct; destroy = destruct }

abbrev pub moving : ClassA
moving = record { transfer = move_construct; copy = copy_construct; destroy = guarded_destruct }

abbrev pub shallow : ClassA
shallow = record { transfer = shallow_copy; copy = shallow_copy; destroy = destruct }

-- The result is made from `a` or `b` before both of them are destroyed, `b` first.
unfoldable pub get : ClassA → Bool → World → Outcome (Holder × World)
get c flag w = do
  (a, w1) ← construct 1 w
  (b, w2) ← construct 2 w1
  let w3 = prints ready_return w2
  elim flag [
    | true ↦ do
      (result, a', w4) ← c.transfer a w3
      w5 ← c.destroy b w4
      w6 ← c.destroy a' w5
      done (result, w6)
    | false ↦ do
      (result, b', w4) ← c.transfer b (prints come_here w3)
      w5 ← c.destroy b' w4
      w6 ← c.destroy a w5
      done (result, w6)
  ]

-- The compilers construct `c` in place of the result of `Get`.
unfoldable pub main : ClassA → World → Outcome World
main cl w = do
  (c, w1) ← get cl false w
  v ← read_int c w1
  w2 ← cl.destroy c (prints (int_value v) w1)
  done (prints main_finish w2)

-- The mains of the three files, which differ in the class alone, each from an empty heap.
unfoldable pub main_deep : Outcome World
main_deep = main deep (record { blocks = []; printed = [] })

unfoldable pub main_moving : Outcome World
main_moving = main moving (record { blocks = []; printed = [] })

unfoldable pub main_shallow : Outcome World
main_shallow = main shallow (record { blocks = []; printed = [] })

-- One use of the class in a scope: an object from a new int, one made from the object that was
-- constructed as number `i`, as from an rvalue, or a copy of that object. A number without an
-- object is no use.
pub data Use : Type 0 where
  makes : ℕ → Use
  takes : ℕ → Use
  copies : ℕ → Use

-- A new object by one of the constructors from another object.
unfoldable pub made_from : Transfer → ℕ → List Holder × World → Outcome (List Holder × World)
made_from f i (xs, w) = elim (get_elem? xs i) [
  | none ↦ done (xs, w)
  | some x ↦ f x w >>= λ (y, x', w'). done (set xs i x' ++ y ∷ [], w')
]

unfoldable pub step : ClassA → Use → List Holder × World → Outcome (List Holder × World)
step c (makes v) (xs, w) = construct v w >>= λ (x, w'). done (xs ++ x ∷ [], w')
step c (takes i) s = made_from c.transfer i s
step c (copies i) s = made_from c.copy i s

unfoldable pub steps : ClassA → List Use → List Holder × World → Outcome (List Holder × World)
steps c [] s = done s
steps c (u ∷ us) s = step c u s >>= steps c us

-- A scope with such uses, up to the destruction of its objects at its end.
unfoldable pub scope : ClassA → List Use → World → Outcome World
scope c us w = steps c us ([], w) >>= λ (xs, w'). destroy_all c.destroy xs w'
