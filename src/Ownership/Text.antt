-- ===== src/Ownership/Text.antt =====
-- rvalue_reference/demo2_move_semantics.cpp: MyString, which owns a copy of a string.
pub mod Values
pub mod Kept
pub mod Leaks
pub mod Refined
pub mod Assigned
pub mod Whole
use cpp_example.Common.{
  ℕ, ◌+◌, ◌==◌, Option, none, some, List, [], ◌∷◌, ◌++◌, length, get_elem?, set, if◌then◌else◌,
}
use cpp_example.Common.Outcome.{Outcome, done, overrun, ◌>>=◌, read_at, printed_string}
use cpp_example.Ownership.Blocks.{Blocks, fetch, release}
use cpp_example.Ownership.Scope.{destroy_all}

-- The message of each member function, with the string that it prints.
pub data Line : Type 0 where
  default_constructor : Line
  ordinary_constructor copy_constructor copy_assignment move_constructor move_assignment :
      List ℕ → Line

pub record World : Type 0 where
  pub blocks : Blocks (List ℕ)
  pub printed : List Line

-- `m_data` is `none` for nullptr.
pub record MyString : Type 0 where
  pub m_data : Option ℕ
  pub m_len : ℕ

abbrev pub Variables : Type 0
Variables = List MyString × World

-- `std::cout << p`, which must not be given a null pointer.
unfoldable pub put_string : Option ℕ → (List ℕ → Line) → World → Outcome World
put_string none l w = overrun
put_string (some a) l w = do
  block ← fetch a w.blocks
  s ← printed_string block
  done (record w { printed = w.printed ++ l s ∷ [] })

-- The bytes from a pointer on; there are none at a null pointer.
unfoldable pub bytes_at : Option ℕ → World → Outcome (List ℕ)
bytes_at none w = done []
bytes_at (some a) w = fetch a w.blocks

-- `copy_data`, with the bytes from `s` on; the new value of m_data is returned.
unfoldable pub copy_data : ℕ → List ℕ → World → Outcome (Option ℕ × World)
copy_data m_len s w = read_at s 0 m_len >>= λ copied.
    done (some (length w.blocks), record w { blocks = w.blocks ++ some (copied ++ 0 ∷ []) ∷ [] })

unfoldable pub default_string : World → MyString × World
default_string w = (
  record { m_data = none; m_len = 0 },
  record w { printed = w.printed ++ default_constructor ∷ [] },
)

-- The argument is the memory from `p` on; `strlen` reads up to its first zero.
unfoldable pub ordinary : List ℕ → World → Outcome (MyString × World)
ordinary p w = do
  s ← printed_string p
  (fresh, w1) ← copy_data (length s) p w
  w2 ← put_string fresh ordinary_constructor w1
  done (record { m_data = fresh; m_len = length s }, w2)

-- The two lines that the copy constructor and the copy assignment share, and their message.
unfoldable pub duplicate : (List ℕ → Line) → MyString → World → Outcome (MyString × World)
duplicate l str w = do
  s ← bytes_at str.m_data w
  (fresh, w1) ← copy_data str.m_len s w
  w2 ← put_string str.m_data l w1
  done (record { m_data = fresh; m_len = str.m_len }, w2)

abbrev pub copy : MyString → World → Outcome (MyString × World)
copy = duplicate copy_constructor

-- The operator of an object that is not `str` itself; its own m_data is overwritten.
abbrev pub copy_assign : MyString → World → Outcome (MyString × World)
copy_assign = duplicate copy_assignment

abbrev pub emptied : MyString
emptied = record { m_data = none; m_len = 0 }

-- The new object, and `str` afterwards.
unfoldable pub move : (List ℕ → Line) → MyString → World → Outcome (MyString × MyString × World)
move l str w = put_string str.m_data l w >>= λ w1. done (str, emptied, w1)

unfoldable pub destroy : MyString → World → Outcome World
destroy str w = elim str.m_data [
  | none ↦ done w
  | some a ↦ release a w.blocks >>= λ h. done (record w { blocks = h })
]

-- A statement of a scope, on variables by the number of their construction: the constructors, and
-- the two assignments, with the target first.
pub data Statement : Type 0 where
  makes_default : Statement
  makes : List ℕ → Statement
  copies_to_new moves_to_new : ℕ → Statement
  copies_to moves_to : ℕ → ℕ → Statement

-- A statement on a variable that is not there is none.
unfoldable pub with_variable : ℕ → Variables → (MyString → Outcome Variables) → Outcome Variables
with_variable i (xs, w) k = elim (get_elem? xs i) [ none ↦ done (xs, w) | some x ↦ k x ]

unfoldable pub execute : Statement → Variables → Outcome Variables
execute makes_default (xs, w) = let (x, w') = default_string w in done (xs ++ x ∷ [], w')
execute (makes p) (xs, w) = ordinary p w >>= λ (x, w'). done (xs ++ x ∷ [], w')
execute (copies_to_new i) (xs, w) =
    with_variable i (xs, w) λ str. copy str w >>= λ (x, w'). done (xs ++ x ∷ [], w')
execute (moves_to_new i) (xs, w) =
    with_variable i (xs, w)
      λ str. move move_constructor str w >>= λ (x, rest, w'). done (set xs i rest ++ x ∷ [], w')
execute (copies_to i j) (xs, w) =
    with_variable i (xs, w)
      λ this.
        with_variable j (xs, w)
          λ str.
            if i == j
            then (put_string str.m_data copy_assignment w >>= λ w'. done (xs, w'))
            else (copy_assign str w >>= λ (x, w'). done (set xs i x, w'))
execute (moves_to i j) (xs, w) =
    with_variable i (xs, w)
      λ this.
        with_variable j (xs, w)
          λ str.
            if i == j
            then (put_string str.m_data move_assignment w >>= λ w'. done (xs, w'))
            else (move move_assignment str w >>= λ (x, rest, w').
                done (set (set xs j rest) i x, w'))

unfoldable pub execute_all : List Statement → Variables → Outcome Variables
execute_all [] s = done s
execute_all (u ∷ us) s = execute u s >>= execute_all us

-- The scope of main, up to the destruction of its variables.
unfoldable pub run_scope : List Statement → World → Outcome World
run_scope us w = execute_all us ([], w) >>= λ (xs, w'). destroy_all destroy xs w'

-- The statements of main: `a`, the temporary that is assigned to it, `b`, `c`, the temporary that
-- is appended to the vector, and the vector's element. The temporaries are empty when they end.
abbrev pub main_statements : List ℕ → List ℕ → List Statement
main_statements hello world =
    makes_default
    ∷ makes hello
    ∷ moves_to 0 1
    ∷ copies_to_new 0
    ∷ moves_to_new 0
    ∷ makes world
    ∷ moves_to_new 4
    ∷ []
