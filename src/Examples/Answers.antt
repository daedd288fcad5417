-- ===== src/Examples/Answers.antt =====
-- What comparisons answer with: two lists of two numbers, and two numbers.
use bonzai.Base.{ℕ, ◌≡◌, ◌⊎◌, refl, arith, some}
use bonzai.Word.{make_ptr, get_int, make_integer, int_of}
use bonzai.Vm.{type_integer}
use bonzai.Vm.TypeOf.{get_type}
use bonzai.Stack.{lt_int}
use bonzai.Compare.{comparison_table, compare_eq}
use bonzai.Compare.Lists.{compare_eq-lists}
use bonzai.Compare.Answers.{comparison_table_lem}
use bonzai.Maths.Integers.{integers, lt_value-signed, is_negative, differ}
use bonzai.Maths.Answers.{lt, asks_lem}
use bonzai.Examples.Machine.{env}
use bonzai.Examples.Values.{lists, three_four, three_five, first-IsList, second-IsList}

table-compare_eq : comparison_table env 2 ≡ some (compare_eq env 100)
unfolding comparison_table
table-compare_eq = refl

comparison_table_lem_example :
    (lists ≡ lists)
    × (get_type lists.heap (make_integer 1) ≡ some type_integer)
    × ((get_int (make_integer 1) ≡ 0) ⊎ (get_int (make_integer 1) ≡ 1))
comparison_table_lem_example =
    comparison_table_lem env 2 (make_ptr 64) (make_ptr 80) lists lists table-compare_eq (
      compare_eq-lists env 98 lists (make_ptr 64) (make_ptr 80) three_four three_five first-IsList
        second-IsList refl)

abbrev the_answer : ℕ
the_answer =
    make_integer
      (int_of (differ (differ (is_negative 4294967295) (is_negative 2)) (lt_int 4294967295 2)))

asks_lem_example :
    (lists ≡ lists)
    × (get_type lists.heap the_answer ≡ some type_integer)
    × ((get_int the_answer ≡ 0) ⊎ (get_int the_answer ≡ 1))
asks_lem_example =
    asks_lem env (integers 4294967295 2) 2 lists lists lt
      (lt_value-signed env 4294967295 2 lists (omega arith) (omega arith))
