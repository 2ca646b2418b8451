-- ===== src/Bip39/Wordlist/EToH.antt =====
-- The words from e to h of ios/Classes/bip39_english.h.
use Prim.Native.String.{String}
use mathlib.Core.List.{List, [], ◌∷◌}

unfoldable pub words_e : List String
words_e =
    "eager" ∷ "eagle" ∷ "early" ∷ "earn" ∷ "earth" ∷ "easily" ∷ "east" ∷ "easy" ∷ "echo" ∷ "ecology"
    ∷ "economy" ∷ "edge" ∷ "edit" ∷ "educate" ∷ "effort" ∷ "egg" ∷ "eight" ∷ "either" ∷ "elbow"
    ∷ "elder" ∷ "electric" ∷ "elegant" ∷ "element" ∷ "elephant" ∷ "elevator" ∷ "elite" ∷ "else"
    ∷ "embark" ∷ "embody" ∷ "embrace" ∷ "emerge" ∷ "emotion" ∷ "employ" ∷ "empower" ∷ "empty"
    ∷ "enable" ∷ "enact" ∷ "end" ∷ "endless" ∷ "endorse" ∷ "enemy" ∷ "energy" ∷ "enforce" ∷ "engage"
    ∷ "engine" ∷ "enhance" ∷ "enjoy" ∷ "enlist" ∷ "enough" ∷ "enrich" ∷ "enroll" ∷ "ensure"
    ∷ "enter" ∷ "entire" ∷ "entry" ∷ "envelope" ∷ "episode" ∷ "equal" ∷ "equip" ∷ "era" ∷ "erase"
    ∷ "erode" ∷ "erosion" ∷ "error" ∷ "erupt" ∷ "escape" ∷ "essay" ∷ "essence" ∷ "estate"
    ∷ "eternal" ∷ "ethics" ∷ "evidence" ∷ "evil" ∷ "evoke" ∷ "evolve" ∷ "exact" ∷ "example"
    ∷ "excess" ∷ "exchange" ∷ "excite" ∷ "exclude" ∷ "excuse" ∷ "execute" ∷ "exercise" ∷ "exhaust"
    ∷ "exhibit" ∷ "exile" ∷ "exist" ∷ "exit" ∷ "exotic" ∷ "expand" ∷ "expect" ∷ "expire" ∷ "explain"
    ∷ "expose" ∷ "express" ∷ "extend" ∷ "extra" ∷ "eye" ∷ "eyebrow" ∷ []

unfoldable pub words_f : List String
words_f =
    "fabric" ∷ "face" ∷ "faculty" ∷ "fade" ∷ "faint" ∷ "faith" ∷ "fall" ∷ "false" ∷ "fame"
    ∷ "family" ∷ "famous" ∷ "fan" ∷ "fancy" ∷ "fantasy" ∷ "farm" ∷ "fashion" ∷ "fat" ∷ "fatal"
    ∷ "father" ∷ "fatigue" ∷ "fault" ∷ "favorite" ∷ "feature" ∷ "february" ∷ "federal" ∷ "fee"
    ∷ "feed" ∷ "feel" ∷ "female" ∷ "fence" ∷ "festival" ∷ "fetch" ∷ "fever" ∷ "few" ∷ "fiber"
    ∷ "fiction" ∷ "field" ∷ "figure" ∷ "file" ∷ "film" ∷ "filter" ∷ "final" ∷ "find" ∷ "fine"
    ∷ "finger" ∷ "finish" ∷ "fire" ∷ "firm" ∷ "first" ∷ "fiscal" ∷ "fish" ∷ "fit" ∷ "fitness"
    ∷ "fix" ∷ "flag" ∷ "flame" ∷ "flash" ∷ "flat" ∷ "flavor" ∷ "flee" ∷ "flight" ∷ "flip" ∷ "float"
    ∷ "flock" ∷ "floor" ∷ "flower" ∷ "fluid" ∷ "flush" ∷ "fly" ∷ "foam" ∷ "focus" ∷ "fog" ∷ "foil"
    ∷ "fold" ∷ "follow" ∷ "food" ∷ "foot" ∷ "force" ∷ "forest" ∷ "forget" ∷ "fork" ∷ "fortune"
    ∷ "forum" ∷ "forward" ∷ "fossil" ∷ "foster" ∷ "found" ∷ "fox" ∷ "fragile" ∷ "frame" ∷ "frequent"
    ∷ "fresh" ∷ "friend" ∷ "fringe" ∷ "frog" ∷ "front" ∷ "frost" ∷ "frown" ∷ "frozen" ∷ "fruit"
    ∷ "fuel" ∷ "fun" ∷ "funny" ∷ "furnace" ∷ "fury" ∷ "future" ∷ []

unfoldable pub words_g : List String
words_g =
    "gadget" ∷ "gain" ∷ "galaxy" ∷ "gallery" ∷ "game" ∷ "gap" ∷ "garage" ∷ "garbage" ∷ "garden"
    ∷ "garlic" ∷ "garment" ∷ "gas" ∷ "gasp" ∷ "gate" ∷ "gather" ∷ "gauge" ∷ "gaze" ∷ "general"
    ∷ "genius" ∷ "genre" ∷ "gentle" ∷ "genuine" ∷ "gesture" ∷ "ghost" ∷ "giant" ∷ "gift" ∷ "giggle"
    ∷ "ginger" ∷ "giraffe" ∷ "girl" ∷ "give" ∷ "glad" ∷ "glance" ∷ "glare" ∷ "glass" ∷ "glide"
    ∷ "glimpse" ∷ "globe" ∷ "gloom" ∷ "glory" ∷ "glove" ∷ "glow" ∷ "glue" ∷ "goat" ∷ "goddess"
    ∷ "gold" ∷ "good" ∷ "goose" ∷ "gorilla" ∷ "gospel" ∷ "gossip" ∷ "govern" ∷ "gown" ∷ "grab"
    ∷ "grace" ∷ "grain" ∷ "grant" ∷ "grape" ∷ "grass" ∷ "gravity" ∷ "great" ∷ "green" ∷ "grid"
    ∷ "grief" ∷ "grit" ∷ "grocery" ∷ "group" ∷ "grow" ∷ "grunt" ∷ "guard" ∷ "guess" ∷ "guide"
    ∷ "guilt" ∷ "guitar" ∷ "gun" ∷ "gym" ∷ []

unfoldable pub words_h : List String
words_h =
    "habit" ∷ "hair" ∷ "half" ∷ "hammer" ∷ "hamster" ∷ "hand" ∷ "happy" ∷ "harbor" ∷ "hard"
    ∷ "harsh" ∷ "harvest" ∷ "hat" ∷ "have" ∷ "hawk" ∷ "hazard" ∷ "head" ∷ "health" ∷ "heart"
    ∷ "heavy" ∷ "hedgehog" ∷ "height" ∷ "hello" ∷ "helmet" ∷ "help" ∷ "hen" ∷ "hero" ∷ "hidden"
    ∷ "high" ∷ "hill" ∷ "hint" ∷ "hip" ∷ "hire" ∷ "history" ∷ "hobby" ∷ "hockey" ∷ "hold" ∷ "hole"
    ∷ "holiday" ∷ "hollow" ∷ "home" ∷ "honey" ∷ "hood" ∷ "hope" ∷ "horn" ∷ "horror" ∷ "horse"
    ∷ "hospital" ∷ "host" ∷ "hotel" ∷ "hour" ∷ "hover" ∷ "hub" ∷ "huge" ∷ "human" ∷ "humble"
    ∷ "humor" ∷ "hundred" ∷ "hungry" ∷ "hunt" ∷ "hurdle" ∷ "hurry" ∷ "hurt" ∷ "husband" ∷ "hybrid"
    ∷ []
