-- ===== src/Bip39/Wordlist/TToZ.antt =====
-- The words from t to z of ios/Classes/bip39_english.h.
use Prim.Native.String.{String}
use mathlib.Core.List.{List, [], ◌∷◌}

unfoldable pub words_t : List String
words_t =
    "table" ∷ "tackle" ∷ "tag" ∷ "tail" ∷ "talent" ∷ "talk" ∷ "tank" ∷ "tape" ∷ "target" ∷ "task"
    ∷ "taste" ∷ "tattoo" ∷ "taxi" ∷ "teach" ∷ "team" ∷ "tell" ∷ "ten" ∷ "tenant" ∷ "tennis" ∷ "tent"
    ∷ "term" ∷ "test" ∷ "text" ∷ "thank" ∷ "that" ∷ "theme" ∷ "then" ∷ "theory" ∷ "there" ∷ "they"
    ∷ "thing" ∷ "this" ∷ "thought" ∷ "three" ∷ "thrive" ∷ "throw" ∷ "thumb" ∷ "thunder" ∷ "ticket"
    ∷ "tide" ∷ "tiger" ∷ "tilt" ∷ "timber" ∷ "time" ∷ "tiny" ∷ "tip" ∷ "tired" ∷ "tissue" ∷ "title"
    ∷ "toast" ∷ "tobacco" ∷ "today" ∷ "toddler" ∷ "toe" ∷ "together" ∷ "toilet" ∷ "token" ∷ "tomato"
    ∷ "tomorrow" ∷ "tone" ∷ "tongue" ∷ "tonight" ∷ "tool" ∷ "tooth" ∷ "top" ∷ "topic" ∷ "topple"
    ∷ "torch" ∷ "tornado" ∷ "tortoise" ∷ "toss" ∷ "total" ∷ "tourist" ∷ "toward" ∷ "tower" ∷ "town"
    ∷ "toy" ∷ "track" ∷ "trade" ∷ "traffic" ∷ "tragic" ∷ "train" ∷ "transfer" ∷ "trap" ∷ "trash"
    ∷ "travel" ∷ "tray" ∷ "treat" ∷ "tree" ∷ "trend" ∷ "trial" ∷ "tribe" ∷ "trick" ∷ "trigger"
    ∷ "trim" ∷ "trip" ∷ "trophy" ∷ "trouble" ∷ "truck" ∷ "true" ∷ "truly" ∷ "trumpet" ∷ "trust"
    ∷ "truth" ∷ "try" ∷ "tube" ∷ "tuition" ∷ "tumble" ∷ "tuna" ∷ "tunnel" ∷ "turkey" ∷ "turn"
    ∷ "turtle" ∷ "twelve" ∷ "twenty" ∷ "twice" ∷ "twin" ∷ "twist" ∷ "two" ∷ "type" ∷ "typical" ∷ []

unfoldable pub words_u : List String
words_u =
    "ugly" ∷ "umbrella" ∷ "unable" ∷ "unaware" ∷ "uncle" ∷ "uncover" ∷ "under" ∷ "undo" ∷ "unfair"
    ∷ "unfold" ∷ "unhappy" ∷ "uniform" ∷ "unique" ∷ "unit" ∷ "universe" ∷ "unknown" ∷ "unlock"
    ∷ "until" ∷ "unusual" ∷ "unveil" ∷ "update" ∷ "upgrade" ∷ "uphold" ∷ "upon" ∷ "upper" ∷ "upset"
    ∷ "urban" ∷ "urge" ∷ "usage" ∷ "use" ∷ "used" ∷ "useful" ∷ "useless" ∷ "usual" ∷ "utility" ∷ []

unfoldable pub words_v : List String
words_v =
    "vacant" ∷ "vacuum" ∷ "vague" ∷ "valid" ∷ "valley" ∷ "valve" ∷ "van" ∷ "vanish" ∷ "vapor"
    ∷ "various" ∷ "vast" ∷ "vault" ∷ "vehicle" ∷ "velvet" ∷ "vendor" ∷ "venture" ∷ "venue" ∷ "verb"
    ∷ "verify" ∷ "version" ∷ "very" ∷ "vessel" ∷ "veteran" ∷ "viable" ∷ "vibrant" ∷ "vicious"
    ∷ "victory" ∷ "video" ∷ "view" ∷ "village" ∷ "vintage" ∷ "violin" ∷ "virtual" ∷ "virus" ∷ "visa"
    ∷ "visit" ∷ "visual" ∷ "vital" ∷ "vivid" ∷ "vocal" ∷ "voice" ∷ "void" ∷ "volcano" ∷ "volume"
    ∷ "vote" ∷ "voyage" ∷ []

unfoldable pub words_w : List String
words_w =
    "wage" ∷ "wagon" ∷ "wait" ∷ "walk" ∷ "wall" ∷ "walnut" ∷ "want" ∷ "warfare" ∷ "warm" ∷ "warrior"
    ∷ "wash" ∷ "wasp" ∷ "waste" ∷ "water" ∷ "wave" ∷ "way" ∷ "wealth" ∷ "weapon" ∷ "wear" ∷ "weasel"
    ∷ "weather" ∷ "web" ∷ "wedding" ∷ "weekend" ∷ "weird" ∷ "welcome" ∷ "west" ∷ "wet" ∷ "whale"
    ∷ "what" ∷ "wheat" ∷ "wheel" ∷ "when" ∷ "where" ∷ "whip" ∷ "whisper" ∷ "wide" ∷ "width" ∷ "wife"
    ∷ "wild" ∷ "will" ∷ "win" ∷ "window" ∷ "wine" ∷ "wing" ∷ "wink" ∷ "winner" ∷ "winter" ∷ "wire"
    ∷ "wisdom" ∷ "wise" ∷ "wish" ∷ "witness" ∷ "wolf" ∷ "woman" ∷ "wonder" ∷ "wood" ∷ "wool"
    ∷ "word" ∷ "work" ∷ "world" ∷ "worry" ∷ "worth" ∷ "wrap" ∷ "wreck" ∷ "wrestle" ∷ "wrist"
    ∷ "write" ∷ "wrong" ∷ []

unfoldable pub words_y : List String
words_y = "yard" ∷ "year" ∷ "yellow" ∷ "you" ∷ "young" ∷ "youth" ∷ []

unfoldable pub words_z : List String
words_z = "zebra" ∷ "zero" ∷ "zone" ∷ "zoo" ∷ []
