-- ===== src/Runtime/Provided.antt =====
-- crates/aidoku-runtime/src/imports/bindings.rs: the host functions that this build defines.
use nyuka.Common.{List, [], ◌∷◌, ◌++◌, map, Text, txt}

abbrev env_functions : List Text
env_functions = txt "abort" ∷ txt "print" ∷ txt "send_partial_result" ∷ txt "sleep" ∷ []

abbrev std_functions : List Text
std_functions =
    txt "abort"
    ∷ txt "buffer_len"
    ∷ txt "current_date"
    ∷ txt "destroy"
    ∷ txt "parse_date"
    ∷ txt "print"
    ∷ txt "read_buffer"
    ∷ txt "utc_offset"
    ∷ []

abbrev defaults_functions : List Text
defaults_functions = txt "get" ∷ txt "set" ∷ []

abbrev net_functions : List Text
net_functions =
    txt "data_len"
    ∷ txt "get_header"
    ∷ txt "get_status_code"
    ∷ txt "get_url"
    ∷ txt "html"
    ∷ txt "init"
    ∷ txt "read_data"
    ∷ txt "send"
    ∷ txt "send_all"
    ∷ txt "set_body"
    ∷ txt "set_header"
    ∷ txt "set_rate_limit"
    ∷ txt "set_timeout"
    ∷ txt "set_url"
    ∷ []

abbrev html_functions : List Text
html_functions =
    txt "add_class"
    ∷ txt "append"
    ∷ txt "attr"
    ∷ txt "base_uri"
    ∷ txt "child_nodes"
    ∷ txt "children"
    ∷ txt "class_name"
    ∷ txt "escape"
    ∷ txt "data"
    ∷ txt "first"
    ∷ txt "get"
    ∷ txt "has_attr"
    ∷ txt "has_class"
    ∷ txt "html"
    ∷ txt "id"
    ∷ txt "last"
    ∷ txt "kind"
    ∷ txt "next"
    ∷ txt "outer_html"
    ∷ txt "own_text"
    ∷ txt "parent"
    ∷ txt "parse"
    ∷ txt "parse_fragment"
    ∷ txt "prepend"
    ∷ txt "previous"
    ∷ txt "remove"
    ∷ txt "remove_attr"
    ∷ txt "remove_class"
    ∷ txt "select"
    ∷ txt "select_first"
    ∷ txt "set_attr"
    ∷ txt "set_html"
    ∷ txt "set_text"
    ∷ txt "siblings"
    ∷ txt "size"
    ∷ txt "tag_name"
    ∷ txt "text"
    ∷ txt "unescape"
    ∷ txt "untrimmed_text"
    ∷ []

functions_of : Text → List Text → List (Text × Text)
functions_of m ns = map (λ n. (m, n)) ns

unfoldable pub provided : List (Text × Text)
unfolding functions_of
provided =
    functions_of (txt "env") env_functions
    ++ functions_of (txt "std") std_functions
    ++ functions_of (txt "defaults") defaults_functions
    ++ functions_of (txt "net") net_functions
    ++ functions_of (txt "html") html_functions
