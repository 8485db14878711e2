-- ===== src/Pattern/Parser/Tests.antt =====
-- A pattern written from items, to which the round trip of the parser is applied.
use logrin.Base.{contains, false, [], ◌∷◌, List, codes, ◌≡◌, refl, arith}
use logrin.Pattern.Directive
use logrin.Pattern.Parser
use logrin.Pattern.Parser.Keywords
use logrin.Pattern.Error.{ok}
use logrin.Pattern.Parser.Items.{Item, text, percent, bare, braced, IsPattern, print, pieces}
use logrin.Pattern.Parser.RoundTrip.{parse-print}
use logrin.Pattern.Parser.{default_config, parse}
use logrin.Pattern.Segment.{
  underlying, level, message, file, attribute, bold, foreground_color_start, style_end,
}

-- `%fg{red}%bold[%L{upper:<5}]%style:end%style:end %f: %m 100%% %X{user}`
abbrev items : List Item
items =
    braced foreground_color_start (codes "red")
    ∷ bare bold
    ∷ text (codes "[")
    ∷ braced level (codes "upper:<5")
    ∷ text (codes "]")
    ∷ bare style_end
    ∷ bare style_end
    ∷ text (codes " ")
    ∷ bare file
    ∷ text (codes ": ")
    ∷ bare message
    ∷ text (codes " 100")
    ∷ percent
    ∷ text (codes " ")
    ∷ braced attribute (codes "user")
    ∷ []

items_text :
    print items ≡ codes "%fg{red}%bold[%L{upper:<5}]%style:end%style:end %f: %m 100%% %X{user}"
items_text = refl

items-IsPattern : IsPattern false 0 0 items
unfolding contains Keywords.is_word_boundary Parser.is_style_start Directive.parse underlying
items-IsPattern = (
  (refl, refl, refl, refl, (_, refl, refl)),
  (
    (refl, refl, refl, refl),
    (
      (refl, omega arith, refl),
      (
        (refl, refl, refl, refl, (_, refl, refl)),
        (
          (refl, omega arith, refl),
          (
            (refl, refl, refl, refl),
            (
              (refl, refl, refl, refl),
              (
                (refl, omega arith, refl),
                (
                  (refl, refl, refl, refl),
                  (
                    (refl, omega arith, refl),
                    (
                      (refl, refl, refl, refl),
                      (
                        (refl, omega arith, refl),
                        (
                          tt,
                          (
                            (refl, omega arith, refl),
                            ((refl, refl, refl, refl, (_, refl, refl)), refl),
                          ),
                        ),
                      ),
                    ),
                  ),
                ),
              ),
            ),
          ),
        ),
      ),
    ),
  ),
)

parse-print_example :
    parse default_config (print items)
    ≡ ok (record { segments = pieces 0 0 items; pattern = print items; config = default_config })
parse-print_example = parse-print items items-IsPattern (omega arith) (omega arith)
