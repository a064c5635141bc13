-- ===== src/Go/Json/Tests.antt =====
-- The JSON printer and reader on small texts.
use runtime_class_manager.Base.{◌≡◌, refl, some, none, txt}
use runtime_class_manager.Go.Json.Value.{Value, str, num, null, arr, cons, nil, obj, field, end}
use runtime_class_manager.Go.Json.Print.{marshal, marshal_indent}
use runtime_class_manager.Go.Json.Parse.{unmarshal}

abbrev lock : Value
lock = obj (
    field (txt "shims")
      (obj (
        field (txt "v1")
          (obj (field (txt "sha256") (str (txt "6d")) (field (txt "path") (str (txt "a<b\\")) end)))
          (field (txt "n") null end)))
      end)

print_compact :
    marshal lock
    ≡ txt "{\"shims\":{\"v1\":{\"sha256\":\"6d\",\"path\":\"a\\u003cb\\\\\"},\"n\":null}}"
unfolding marshal txt
print_compact = refl

print_lines :
    marshal_indent (obj (field (txt "shims") (obj (field (txt "n") null end)) end))
    ≡ txt "{\n \"shims\": {\n  \"n\": null\n }\n}"
unfolding marshal_indent txt
print_lines = refl

read_compact : unmarshal (marshal lock) ≡ some lock
unfolding marshal txt unmarshal
read_compact = refl

read_lines : unmarshal (marshal_indent lock) ≡ some lock
unfolding marshal_indent txt unmarshal
read_lines = refl

read_numbers :
    unmarshal (txt " [ -1.5e+3 , 0 ] ")
    ≡ some (arr (cons (num (txt "-1.5e+3")) (cons (num (txt "0")) nil)))
unfolding txt unmarshal
read_numbers = refl

broken : unmarshal (txt "broken") ≡ none
unfolding txt unmarshal
broken = refl

trailing : unmarshal (txt "{} {}") ≡ none
unfolding txt unmarshal
trailing = refl
