-- ===== src/Tests/Chat.antt =====
-- A chat request from the client to a node and back.
use mathlib.Core.List.Perm
use opengnk.Prelude.{
  ℕ, ◌≤◌, true, false, List, [], ◌∷◌, ◌++◌, Option, none, some, ◌≡◌, refl, inl, inr, arith,
  if◌then◌else◌, Bool-cases,
}
use opengnk.Prelude.Int.{pos}
use opengnk.Prelude.Sort.{sort}
use opengnk.Text.{Bytes, codes, equal, contains, starts_with, less, slice}
use opengnk.Text.Decimal.{decimal6}
use opengnk.Text.Dict.{lookup, insert}
use opengnk.Text.Trim.{reverse_onto}
use opengnk.Json.Syntax.{valid}
use opengnk.Json.Split.{skip_spaces, trim, cut, trim_all, items, halve, members}
use opengnk.Json.Strings.{rune_width, unescape, unquote, escape_byte, escape, marshal_string}
use opengnk.Json.Encode.{
  compact, marshal_raw, join, brackets, entries, braces, marshal_map, marshal_maps,
}
use opengnk.Json.Decode.{
  RawMap, shape, fill, get, assign, unmarshal_map, unmarshal_list, unmarshal_string, all_maps,
  unmarshal_maps, fold_key, field_values, unmarshal_struct, flag_field, raw_field, peek_flag,
}
use opengnk.Sanitize.Span.{Classifier}
use opengnk.Sanitize.Spans.{
  valid_spans, keep_span, keep_between, is_rune_boundary, cut_before, cut_after,
  is_word_boundary_byte, one_of, deduplicate_spans, sort_spans_desc,
}
use opengnk.Sanitize.Token.{token, has_placeholder}
use opengnk.Sanitize.TokenMap.{State, register, is_empty}
use opengnk.Sanitize.TokenMap.Invariant.{IsValid}
use opengnk.Sanitize.TokenMap.Pieces.{Piece, mark, byte, render, expand}
use opengnk.Sanitize.Redact.{
  Arrival, finished, run_classifiers, history_classifiers, redact_text, redact_found, redact_spans,
}
use opengnk.Sanitize.Redact.Loop.{Stands}
use opengnk.Sanitize.Messages.{
  is_user, last_user_from, put_text, redact_string, redact_message, redact_from, redactor_of,
  messages_of, redact_messages, is_last, same,
}
use opengnk.Sanitize.Messages.Sent.{IsSent}
use opengnk.Sanitize.Messages.Request.{IsBounded, cost_of_body, redact_messages-IsSent}
use opengnk.Sanitize.Messages.History.{redact_message_single}
use opengnk.Wallet.{next, next_index}
use opengnk.Wallet.Fairness
use opengnk.Upstream.{Client, member, candidates, pick_endpoint_excluding, draw_from, fall_back}
use opengnk.Upstream.Request.{World, response, answered, do_request, do_from, on_reply}
use opengnk.ToolSim.{needs_simulation}
use opengnk.Api.Chat.{Handler, readable, Env, plain, route, chat_completions}
use opengnk.Api.Chat.Replies.{IsServed, chat_completions-IsServed}
use opengnk.Api.Chat.Restored.{restored_reply, chat_completions-restored}

-- It finds a name in one text and nothing in any other.
abbrev finds_john : Classifier
finds_john text =
    if equal text (codes "John")
    then some (record { start = pos 0; stop = pos 4; label = codes "PER"; score = 100 } ∷ [])
    else some []

abbrev arrivals : ℕ → ℕ → List Arrival
arrivals i j = finished 0 ∷ []

finds_john-IsBounded : IsBounded (finds_john ∷ []) arrivals 1
unfolding run_classifiers history_classifiers
finds_john-IsBounded i j text = elim (Bool-cases (equal text (codes "John"))) [
  | inl e ↦ rw e (omega arith, omega arith)
  | inr e ↦ rw e (omega arith, omega arith)
]

abbrev body : Bytes
body = codes "{\"messages\": [{\"role\": \"user\", \"content\": \"John\"}], \"n\": 1}"

abbrev sent_body : Bytes
sent_body =
    codes "{\"messages\":[{\"content\":\"" ++ token 1 ++ codes "\",\"role\":\"user\"}],\"n\":1}"

abbrev john : State
john = record {
  counter = 1;
  map = record {
    to_token = (codes "John", token 1) ∷ [];
    from_token = (token 1, codes "John") ∷ [];
  };
}

redacts : redact_messages (finds_john ∷ []) arrivals body 0 ≡ some (sent_body, john)
unfolding redact_messages redact_from redact_message redact_string put_text redactor_of is_user
    last_user_from messages_of get assign marshal_map marshal_maps entries marshal_string escape
    escape_byte marshal_raw compact braces brackets join sort less unmarshal_map unmarshal_maps
    unmarshal_list unmarshal_string all_maps shape valid trim skip_spaces reverse_onto items members
    halve trim_all cut unquote unescape rune_width fill insert lookup equal starts_with redact_text
    redact_found redact_spans run_classifiers valid_spans keep_span keep_between is_rune_boundary
    cut_before cut_after is_word_boundary_byte one_of deduplicate_spans sort_spans_desc
    has_placeholder slice register token decimal6
redacts = refl

abbrev node_client : Client
node_client = record {
  source_url = codes "http://node";
  pool = record { wallets = record { signer = 11; address = codes "gonka1a" } ∷ []; counter = 0 };
  endpoints = record { url = codes "http://a/v1"; address = codes "a" } ∷ [];
}

node_client-IsValid : Fairness.IsValid node_client.pool
node_client-IsValid = record { nonempty = omega arith; in_range = omega arith }

-- The node says the name twice.
abbrev says : List Piece
says = byte 34 ∷ mark 1 (codes "John") ∷ byte 32 ∷ mark 1 (codes "John") ∷ byte 34 ∷ []

abbrev answering : World
answering n = record { draw = 0; reply = λ ep w. response 200 (render says) none }

abbrev env : Env
env = record {
  counter = 0;
  arrivals = arrivals;
  world = λ payload. answering;
  events = λ body err. [];
  restore_order = λ d. d;
  read_order = λ n d. d;
  header_order = λ d. d;
  random = λ i. [];
  rewrite_error = [];
}

abbrev handler : Handler
handler = record {
  client = node_client;
  simulate_tool_calls = true;
  native_tool_calls = false;
  sanitizer = some (finds_john ∷ []);
}

cost_of_one : cost_of_body 1 body ≡ 1
unfolding messages_of get unmarshal_map unmarshal_maps unmarshal_list unmarshal_string all_maps
    shape valid trim skip_spaces reverse_onto items members halve trim_all cut unquote unescape
    rune_width fill insert lookup equal starts_with
cost_of_one = refl

takes_plain : route handler sent_body ≡ some (plain sent_body)
unfolding route needs_simulation peek_flag unmarshal_struct raw_field field_values fold_key
    flag_field shape valid trim skip_spaces reverse_onto items members halve trim_all cut unquote
    unescape rune_width equal starts_with token decimal6
takes_plain = refl

john-Stands : Stands john 1 (codes "John")
john-Stands = (
  record {
    id = 1;
    issued = omega arith;
    is_token = refl;
    present = inl refl;
    means = ((λ _. refl), tt);
  },
  omega arith,
)

answers : (do_request answering node_client).outcome ≡ answered 200 (render says) none
unfolding do_from on_reply pick_endpoint_excluding candidates draw_from fall_back member equal next
    next_index
answers = refl

-- The client gets the name back, twice, and what the node saw is a token.
chat_completions-restored_example :
    IsSent (finds_john ∷ []) env.arrivals john body sent_body
    × ((chat_completions handler env (readable body)).upstream
        ≡ some (sent_body, do_request answering node_client))
    × ((chat_completions handler env (readable body)).reply
        ≡ some (restored_reply env john 200 says))
unfolding is_empty contains starts_with expand
chat_completions-restored_example =
    chat_completions-restored handler env (finds_john ∷ []) 1 body sent_body sent_body john 200 says
      refl finds_john-IsBounded (omega (arith, cost_of_one)) redacts takes_plain answers
      (omega arith) (omega arith) (Perm.refl john.map.from_token) (john-Stands, (john-Stands, tt))
      refl refl

chat_completions-IsServed_example : IsServed handler (chat_completions handler env (readable body))
chat_completions-IsServed_example =
    chat_completions-IsServed handler env 1 (readable body)
      (record {
        some_eps = omega arith;
        valid = node_client-IsValid;
        http = λ payload n ep w status b err e. three_digits status b err e;
      })
      (finds_john-IsBounded, omega (arith, cost_of_one))
  where
    three_digits :
        (status : ℕ) (b : Bytes) (err : Option Bytes)
        → response 200 (render says) none ≡ response status b err
        → (100 ≤ status) × (status ≤ 999)
    three_digits status b err e = ground (arith, e)

redact_messages-IsSent_example :
    (out : Bytes) × (s : State) × (redact_messages (finds_john ∷ []) arrivals body 0
      ≡ some (out, s))
    × IsValid s
    × IsSent (finds_john ∷ []) arrivals s body out
redact_messages-IsSent_example =
    redact_messages-IsSent (finds_john ∷ []) arrivals 1 body 0 finds_john-IsBounded
      (omega (arith, cost_of_one))

-- A message of the history with the name that the classifier finds.
abbrev earlier : RawMap
earlier = some ((codes "content", codes "\"John\"") ∷ [])

redact_message_single_example :
    redact_message (redactor_of (finds_john ∷ []) arrivals (some 1) 0) earlier john
    ≡ some (same earlier john)
unfolding is_last
redact_message_single_example =
    redact_message_single finds_john arrivals (some 1) 0 earlier john refl
