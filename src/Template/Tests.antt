-- ===== src/Template/Tests.antt =====
-- Runs of the template engine at fixed inputs.
use rwf.Prelude.{
  ℕ, List, [], ◌∷◌, ◌≡◌, ◌≢◌, ◌⊎◌, inl, refl, map, true, false, some, ltb, if◌then◌else◌,
}
use rwf.Prelude.Int.{pos}
use rwf.Prelude.Text.{Text, codes}
use rwf.Prelude.Outcome.{ok, panic, out_of_fuel, ◌>>=◌}
use rwf.Strings.Escaping.{has_no_tags}
use rwf.Template.Value
use rwf.Template.Value.{Value}
use rwf.Template.Value.Call.{Renderer}
use rwf.Template.Token.{
  Token, TokenWithContext, Result, value, variable, text, if_, equals, end_, block_start, block_end,
  minus, plus, mult, less_than,
}
use rwf.Template.Op
use rwf.Template.Op.{from_token, precedence, add, sub}
use rwf.Template.Lexer.Loop.{tokens}
use rwf.Template.Lexer.Plain.{is_plain}
use rwf.Template.Expression.{Term, term, binary}
use rwf.Template.Expression.Parse.{parse_expression}
use rwf.Template.Expression.Evaluate.{evaluate}
use rwf.Template.Expression.Formula.{Formula, meaning, at, onto}
use rwf.Template.Expression.RoundTrip.{parse-formula}
use rwf.Template.Expression.Precedence.{parse_two_operators, parse_comparison_panics}
use rwf.Template.Statement.{print, nil}
use rwf.Template.Statement.Parse.{parse_program}
use rwf.Template.Statement.Evaluate.{evaluate_statement}
use rwf.Template.Statement.Total.{parse_program_ends}
use rwf.Template.Host.{Host}
use rwf.Template.Render.{render_text}
use rwf.Template.Render.Cache.{Template, Cache, get, get_twice}
use rwf.Template.Render.Output.{render_text-plain, print_escapes}
use rwf.Template.Sample.{sample_host}

abbrev plain_tokens : Result (List TokenWithContext) → Result (List Token)
plain_tokens r = r >>= λ ts. ok (map (λ t. t.token) ts)

lex_sample :
    plain_tokens (tokens sample_host (codes "a<% if x1 == 12 %>b<% end %>"))
    ≡ ok (
        text (codes "a")
        ∷ block_start
        ∷ if_
        ∷ variable (codes "x1")
        ∷ equals
        ∷ value (Value.integer (pos 12))
        ∷ block_end
        ∷ text (codes "b")
        ∷ block_start
        ∷ end_
        ∷ block_end
        ∷ [])
unfolding tokens
lex_sample = refl

render_sample :
    render_text sample_host 2
      (codes
        "<ul><% for x in [1, 2 ,\"<i>\"] %><li><%= x * 2 + 1 %></li><% end %></ul><% if nope %>a<% elsif 1 == 1 %>b<% else %>c<% end %>")
      Value.end
    ≡ ok (codes "<ul><li>3</li><li>5</li><li>&lt;i&gt;&lt;i&gt;1</li></ul>b")
unfolding render_text
render_sample = refl

-- `1 - x`, and a row of its kind
abbrev one_less : Formula
one_less =
    Formula.binary (Formula.constant (Value.integer (pos 1))) minus sub (unfold from_token in refl)
      (Formula.variable (codes "x"))

abbrev number : ℕ → Formula
number n = Formula.constant (Value.integer (pos n))

parse-formula_example :
    parse_expression (onto one_less (at block_end ∷ [])) ≡ ok (meaning one_less, at block_end ∷ [])
parse-formula_example = parse-formula one_less (at block_end ∷ []) (unfold from_token in refl)

-- The operators of the tokens, and their precedences
plus_op : from_token plus ≡ some add
unfolding from_token
plus_op = refl

minus_op : from_token minus ≡ some sub
unfolding from_token
minus_op = refl

mult_op : from_token mult ≡ some Op.mult
unfolding from_token
mult_op = refl

less_than_op : from_token less_than ≡ some Op.less_than
unfolding from_token
less_than_op = refl

parse_two_operators_example :
    parse_expression (onto (number 1) (at plus ∷ onto (number 2) (at mult ∷ onto (number 3) [])))
    ≡ ok (
      (if ltb 3 4
          then binary
              (meaning (number 1))
              add
              (binary (meaning (number 2)) Op.mult (meaning (number 3)))
          else binary
              (binary (meaning (number 1)) add (meaning (number 2)))
              Op.mult
              (meaning (number 3))),
      [],
    )
parse_two_operators_example =
    parse_two_operators (number 1) plus (number 2) mult plus_op mult_op (number 3) [] 4 3 refl
      (unfold precedence in refl) (unfold precedence in refl)

parse_comparison_panics_example :
    parse_expression
      (onto (number 1) (at less_than ∷ onto (number 2) (at plus ∷ onto (number 3) [])))
    ≡ panic
parse_comparison_panics_example =
    parse_comparison_panics (number 1) less_than (number 2) plus less_than_op plus_op (number 3) []
      refl (inl (unfold precedence in refl))

parse_program_ends_example : parse_program (at block_start ∷ at if_ ∷ []) ≢ out_of_fuel
parse_program_ends_example = parse_program_ends (at block_start ∷ at if_ ∷ [])

render_text-plain_example :
    render_text sample_host 1 (codes "a < b %") Value.end ≡ ok (codes "a < b %")
render_text-plain_example =
    render_text-plain sample_host 0 (codes "a < b %") Value.end (unfold is_plain in refl)

-- A renderer without templates
abbrev no_renderer : Renderer
no_renderer = record {
  at_path = λ path context. out_of_fuel;
  of_source = λ source context. out_of_fuel;
}

abbrev tag : Value
tag = Value.string (codes "<b>")

print_escapes_example :
    (out : Text) × (evaluate_statement sample_host no_renderer
        (print (term (Term.constant tag)))
        Value.end
      ≡ ok out)
    × (((s : Text) × (tag ≡ Value.safe_string s) × (out ≡ s)) ⊎ (has_no_tags out ≡ true))
print_escapes_example =
    print_escapes sample_host no_renderer (term (Term.constant tag)) Value.end tag
      (unfold evaluate in refl)

-- A file that is read once and is gone
abbrev with_file : Host
with_file = record sample_host { read_file = λ p. some [] }

abbrev empty_file : Template
empty_file = record { program = nil; path = some (codes "a.html") }

abbrev one_cached : Cache
one_cached = (codes "a.html", empty_file) ∷ []

got : get with_file true (codes "a.html") [] ≡ (ok empty_file, one_cached)
unfolding get
got = refl

get_twice_example : get sample_host false (codes "a.html") one_cached ≡ (ok empty_file, one_cached)
get_twice_example =
    get_twice with_file sample_host false (codes "a.html") [] one_cached empty_file got
