-- ===== src/Instructions.antt =====
-- `lky_instruction` of src/interpreter/instruction_set.h as the numbers that stand in the code.
use lanky.Prelude.{ℕ}

abbrev pub li_binary_add : ℕ
li_binary_add = 50

abbrev pub li_binary_subtract : ℕ
li_binary_subtract = 51

abbrev pub li_binary_multiply : ℕ
li_binary_multiply = 52

abbrev pub li_binary_divide : ℕ
li_binary_divide = 53

abbrev pub li_binary_modulo : ℕ
li_binary_modulo = 54

abbrev pub li_binary_power : ℕ
li_binary_power = 55

abbrev pub li_binary_lt : ℕ
li_binary_lt = 56

abbrev pub li_binary_gt : ℕ
li_binary_gt = 57

abbrev pub li_binary_equal : ℕ
li_binary_equal = 58

abbrev pub li_binary_lte : ℕ
li_binary_lte = 59

abbrev pub li_binary_gte : ℕ
li_binary_gte = 60

abbrev pub li_binary_ne : ℕ
li_binary_ne = 61

abbrev pub li_binary_and : ℕ
li_binary_and = 62

abbrev pub li_binary_or : ℕ
li_binary_or = 63

abbrev pub li_binary_nc : ℕ
li_binary_nc = 64

abbrev pub li_binary_band : ℕ
li_binary_band = 65

abbrev pub li_binary_bor : ℕ
li_binary_bor = 66

abbrev pub li_binary_bxor : ℕ
li_binary_bxor = 67

abbrev pub li_binary_blshift : ℕ
li_binary_blshift = 68

abbrev pub li_binary_brshift : ℕ
li_binary_brshift = 69

abbrev pub li_unary_not : ℕ
li_unary_not = 70

abbrev pub li_unary_negative : ℕ
li_unary_negative = 71

abbrev pub li_load_const : ℕ
li_load_const = 72

abbrev pub li_print : ℕ
li_print = 73

abbrev pub li_pop : ℕ
li_pop = 74

abbrev pub li_jump_false : ℕ
li_jump_false = 75

abbrev pub li_jump_true : ℕ
li_jump_true = 76

abbrev pub li_jump : ℕ
li_jump = 77

abbrev pub li_jump_false_else_pop : ℕ
li_jump_false_else_pop = 78

abbrev pub li_jump_true_else_pop : ℕ
li_jump_true_else_pop = 79

abbrev pub li_ignore : ℕ
li_ignore = 80

abbrev pub li_save_local : ℕ
li_save_local = 81

abbrev pub li_load_local : ℕ
li_load_local = 82

abbrev pub li_push_nil : ℕ
li_push_nil = 83

abbrev pub li_push_bool : ℕ
li_push_bool = 84

abbrev pub li_push_new_object : ℕ
li_push_new_object = 85

abbrev pub li_call_func : ℕ
li_call_func = 86

abbrev pub li_return : ℕ
li_return = 87

abbrev pub li_load_member : ℕ
li_load_member = 88

abbrev pub li_save_member : ℕ
li_save_member = 89

abbrev pub li_make_function : ℕ
li_make_function = 90

abbrev pub li_make_class : ℕ
li_make_class = 91

abbrev pub li_save_close : ℕ
li_save_close = 92

abbrev pub li_load_close : ℕ
li_load_close = 93

abbrev pub li_make_array : ℕ
li_make_array = 94

abbrev pub li_make_table : ℕ
li_make_table = 95

abbrev pub li_make_object : ℕ
li_make_object = 96

abbrev pub li_load_index : ℕ
li_load_index = 97

abbrev pub li_save_index : ℕ
li_save_index = 98

abbrev pub li_sduplicate : ℕ
li_sduplicate = 99

abbrev pub li_dduplicate : ℕ
li_dduplicate = 100

abbrev pub li_flip_two : ℕ
li_flip_two = 101

abbrev pub li_sink_first : ℕ
li_sink_first = 102

abbrev pub li_make_iter : ℕ
li_make_iter = 103

abbrev pub li_next_iter_or_jump : ℕ
li_next_iter_or_jump = 104

abbrev pub li_iter_index : ℕ
li_iter_index = 105

abbrev pub li_load_module : ℕ
li_load_module = 106

abbrev pub li_push_catch : ℕ
li_push_catch = 107

abbrev pub li_pop_catch : ℕ
li_pop_catch = 108

abbrev pub li_raise : ℕ
li_raise = 109
