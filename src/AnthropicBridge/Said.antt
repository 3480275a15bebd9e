-- ===== src/AnthropicBridge/Said.antt =====
-- app/proxy/anthropic_bridge.py: what is said by events, and by the deltas of a provider.
use guardian_llmprovider_gat.Prelude.{
  ◌≡◌, refl, ap, subst, sym, ◌∙◌, none, some, List, [], ◌∷◌, ◌++◌, if◌then◌else◌, append_assoc,
  append_nil,
}
use guardian_llmprovider_gat.Value.{Value, list, mapping, Items, nil, cons, Fields, truthy}
use guardian_llmprovider_gat.AnthropicBridge.{
  Delta, thinking_delta, signature_delta, text_delta, input_json_delta, Event, content_block_delta,
  Emit, followed, ◌>>=◌,
}
use guardian_llmprovider_gat.AnthropicBridge.Stream.{Runtime, Read, line, arguments_of, function_of}
use guardian_llmprovider_gat.AnthropicBridge.Generator.{
  reasoning_of, content_of, tool_calls_of, Parsed, skipped, done, parsed, read_line,
}
use guardian_llmprovider_gat.AnthropicBridge.Messages.{chunk_delta}

-- What is said: pieces of thinking, of text and of the arguments of tool calls, each in their order.
pub record Said : Type 0 where
  pub thinking : List Value
  pub texts : List Value
  pub arguments : List Value

abbrev pub nothing : Said
nothing = record { thinking = []; texts = []; arguments = [] }

abbrev pub join : Said → Said → Said
join a b = record {
  thinking = a.thinking ++ b.thinking;
  texts = a.texts ++ b.texts;
  arguments = a.arguments ++ b.arguments;
}

abbrev pub thinks : Value → Said
thinks v = record { thinking = v ∷ []; texts = []; arguments = [] }

abbrev pub says : Value → Said
says v = record { thinking = []; texts = v ∷ []; arguments = [] }

abbrev pub argues : Value → Said
argues v = record { thinking = []; texts = []; arguments = v ∷ [] }

abbrev pub said_by_delta : Delta → Said
said_by_delta (thinking_delta v) = thinks v
said_by_delta signature_delta = nothing
said_by_delta (text_delta v) = says v
said_by_delta (input_json_delta v) = argues v

abbrev pub said_by_event : Event → Said
said_by_event (content_block_delta i d) = said_by_delta d
said_by_event _ = nothing

unfoldable pub said_by : List Event → Said
said_by [] = nothing
said_by (e ∷ es) = join (said_by_event e) (said_by es)

-- What a provider's delta says: what is true in Python.
abbrev pub if_true : (Value → Said) → Value → Said
if_true f v = if truthy v then f v else nothing

unfoldable pub said_in_calls : Items → Said
said_in_calls nil = nothing
said_in_calls (cons (mapping tc) tcs) =
    join (if_true argues (arguments_of (function_of tc))) (said_in_calls tcs)
said_in_calls (cons _ tcs) = said_in_calls tcs

abbrev pub said_in_list : Value → Said
said_in_list (list tcs) = said_in_calls tcs
said_in_list _ = nothing

abbrev pub said_in_delta : Fields → Said
said_in_delta delta =
    join (if_true thinks (reasoning_of delta))
      (join (if_true says (content_of delta)) (said_in_list (tool_calls_of delta)))

abbrev pub after_line : Parsed → Said → Said
after_line skipped rest = rest
after_line done rest = nothing
after_line (parsed v) rest = join (said_in_delta (chunk_delta v)) rest

-- What the reads say, up to the end of the stream.
unfoldable pub said_in : Runtime → List Read → Said
said_in rt [] = nothing
said_in rt (line l ∷ reads) = after_line (read_line rt l) (said_in rt reads)
said_in rt (_ ∷ reads) = said_in rt reads

pub join_assoc : (a b c : Said) → join (join a b) c ≡ join a (join b c)
join_assoc a b c = λ i. record {
  thinking = append_assoc a.thinking b.thinking c.thinking i;
  texts = append_assoc a.texts b.texts c.texts i;
  arguments = append_assoc a.arguments b.arguments c.arguments i;
}

pub join-nothing : (a : Said) → join a nothing ≡ a
join-nothing a = λ i. record {
  thinking = append_nil a.thinking i;
  texts = append_nil a.texts i;
  arguments = append_nil a.arguments i;
}

pub said_by-append : (es fs : List Event) → said_by (es ++ fs) ≡ join (said_by es) (said_by fs)
unfolding said_by
said_by-append [] fs = refl
said_by-append (e ∷ es) fs =
    ap (join (said_by_event e)) (said_by-append es fs)
    ∙ sym (join_assoc (said_by_event e) (said_by es) (said_by fs))

-- The events say `a`, unless an exception is raised.
abbrev pub Says : {A : Type 0} → Said → Emit A → Type 0
Says a (es, none) = Unit
Says a (es, some r) = said_by es ≡ a

pub Says-followed :
    {A : Type 0} (a b : Said) (es : List Event) (m : Emit A)
    → said_by es ≡ a
    → Says b m
    → Says (join a b) (followed es m)
Says-followed a b es (fs, none) p q = tt
Says-followed a b es (fs, some r) p q =
    said_by-append es fs ∙ ap (λ (x : Said). join x (said_by fs)) p ∙ ap (join a) q

pub Says->>= :
    {A B : Type 0} (a b : Said) (m : Emit A) (f : A → Emit B)
    → Says a m
    → ((r : A) → Says b (f r))
    → Says (join a b) (m >>= f)
Says->>= a b (es, none) f p q = tt
Says->>= a b (es, some r) f p q = Says-followed a b es (f r) p (q r)

-- A last part that says nothing.
pub Says-last :
    {A B : Type 0} (a : Said) (m : Emit A) (f : A → Emit B)
    → Says a m
    → ((r : A) → Says nothing (f r))
    → Says a (m >>= f)
Says-last a m f p q =
    subst (λ (x : Said). Says x (m >>= f)) (join-nothing a) (Says->>= a nothing m f p q)
