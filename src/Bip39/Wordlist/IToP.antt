-- ===== src/Bip39/Wordlist/IToP.antt =====
-- The words from i to p of ios/Classes/bip39_english.h.
use Prim.Native.String.{String}
use mathlib.Core.List.{List, [], ◌∷◌}

unfoldable pub words_i : List String
words_i =
    "ice" ∷ "icon" ∷ "idea" ∷ "identify" ∷ "idle" ∷ "ignore" ∷ "ill" ∷ "illegal" ∷ "illness"
    ∷ "image" ∷ "imitate" ∷ "immense" ∷ "immune" ∷ "impact" ∷ "impose" ∷ "improve" ∷ "impulse"
    ∷ "inch" ∷ "include" ∷ "income" ∷ "increase" ∷ "index" ∷ "indicate" ∷ "indoor" ∷ "industry"
    ∷ "infant" ∷ "inflict" ∷ "inform" ∷ "inhale" ∷ "inherit" ∷ "initial" ∷ "inject" ∷ "injury"
    ∷ "inmate" ∷ "inner" ∷ "innocent" ∷ "input" ∷ "inquiry" ∷ "insane" ∷ "insect" ∷ "inside"
    ∷ "inspire" ∷ "install" ∷ "intact" ∷ "interest" ∷ "into" ∷ "invest" ∷ "invite" ∷ "involve"
    ∷ "iron" ∷ "island" ∷ "isolate" ∷ "issue" ∷ "item" ∷ "ivory" ∷ []

unfoldable pub words_j : List String
words_j =
    "jacket" ∷ "jaguar" ∷ "jar" ∷ "jazz" ∷ "jealous" ∷ "jeans" ∷ "jelly" ∷ "jewel" ∷ "job" ∷ "join"
    ∷ "joke" ∷ "journey" ∷ "joy" ∷ "judge" ∷ "juice" ∷ "jump" ∷ "jungle" ∷ "junior" ∷ "junk"
    ∷ "just" ∷ []

unfoldable pub words_k : List String
words_k =
    "kangaroo" ∷ "keen" ∷ "keep" ∷ "ketchup" ∷ "key" ∷ "kick" ∷ "kid" ∷ "kidney" ∷ "kind"
    ∷ "kingdom" ∷ "kiss" ∷ "kit" ∷ "kitchen" ∷ "kite" ∷ "kitten" ∷ "kiwi" ∷ "knee" ∷ "knife"
    ∷ "knock" ∷ "know" ∷ []

unfoldable pub words_l : List String
words_l =
    "lab" ∷ "label" ∷ "labor" ∷ "ladder" ∷ "lady" ∷ "lake" ∷ "lamp" ∷ "language" ∷ "laptop"
    ∷ "large" ∷ "later" ∷ "latin" ∷ "laugh" ∷ "laundry" ∷ "lava" ∷ "law" ∷ "lawn" ∷ "lawsuit"
    ∷ "layer" ∷ "lazy" ∷ "leader" ∷ "leaf" ∷ "learn" ∷ "leave" ∷ "lecture" ∷ "left" ∷ "leg"
    ∷ "legal" ∷ "legend" ∷ "leisure" ∷ "lemon" ∷ "lend" ∷ "length" ∷ "lens" ∷ "leopard" ∷ "lesson"
    ∷ "letter" ∷ "level" ∷ "liar" ∷ "liberty" ∷ "library" ∷ "license" ∷ "life" ∷ "lift" ∷ "light"
    ∷ "like" ∷ "limb" ∷ "limit" ∷ "link" ∷ "lion" ∷ "liquid" ∷ "list" ∷ "little" ∷ "live" ∷ "lizard"
    ∷ "load" ∷ "loan" ∷ "lobster" ∷ "local" ∷ "lock" ∷ "logic" ∷ "lonely" ∷ "long" ∷ "loop"
    ∷ "lottery" ∷ "loud" ∷ "lounge" ∷ "love" ∷ "loyal" ∷ "lucky" ∷ "luggage" ∷ "lumber" ∷ "lunar"
    ∷ "lunch" ∷ "luxury" ∷ "lyrics" ∷ []

unfoldable pub words_m : List String
words_m =
    "machine" ∷ "mad" ∷ "magic" ∷ "magnet" ∷ "maid" ∷ "mail" ∷ "main" ∷ "major" ∷ "make" ∷ "mammal"
    ∷ "man" ∷ "manage" ∷ "mandate" ∷ "mango" ∷ "mansion" ∷ "manual" ∷ "maple" ∷ "marble" ∷ "march"
    ∷ "margin" ∷ "marine" ∷ "market" ∷ "marriage" ∷ "mask" ∷ "mass" ∷ "master" ∷ "match"
    ∷ "material" ∷ "math" ∷ "matrix" ∷ "matter" ∷ "maximum" ∷ "maze" ∷ "meadow" ∷ "mean" ∷ "measure"
    ∷ "meat" ∷ "mechanic" ∷ "medal" ∷ "media" ∷ "melody" ∷ "melt" ∷ "member" ∷ "memory" ∷ "mention"
    ∷ "menu" ∷ "mercy" ∷ "merge" ∷ "merit" ∷ "merry" ∷ "mesh" ∷ "message" ∷ "metal" ∷ "method"
    ∷ "middle" ∷ "midnight" ∷ "milk" ∷ "million" ∷ "mimic" ∷ "mind" ∷ "minimum" ∷ "minor" ∷ "minute"
    ∷ "miracle" ∷ "mirror" ∷ "misery" ∷ "miss" ∷ "mistake" ∷ "mix" ∷ "mixed" ∷ "mixture" ∷ "mobile"
    ∷ "model" ∷ "modify" ∷ "mom" ∷ "moment" ∷ "monitor" ∷ "monkey" ∷ "monster" ∷ "month" ∷ "moon"
    ∷ "moral" ∷ "more" ∷ "morning" ∷ "mosquito" ∷ "mother" ∷ "motion" ∷ "motor" ∷ "mountain"
    ∷ "mouse" ∷ "move" ∷ "movie" ∷ "much" ∷ "muffin" ∷ "mule" ∷ "multiply" ∷ "muscle" ∷ "museum"
    ∷ "mushroom" ∷ "music" ∷ "must" ∷ "mutual" ∷ "myself" ∷ "mystery" ∷ "myth" ∷ []

unfoldable pub words_n : List String
words_n =
    "naive" ∷ "name" ∷ "napkin" ∷ "narrow" ∷ "nasty" ∷ "nation" ∷ "nature" ∷ "near" ∷ "neck"
    ∷ "need" ∷ "negative" ∷ "neglect" ∷ "neither" ∷ "nephew" ∷ "nerve" ∷ "nest" ∷ "net" ∷ "network"
    ∷ "neutral" ∷ "never" ∷ "news" ∷ "next" ∷ "nice" ∷ "night" ∷ "noble" ∷ "noise" ∷ "nominee"
    ∷ "noodle" ∷ "normal" ∷ "north" ∷ "nose" ∷ "notable" ∷ "note" ∷ "nothing" ∷ "notice" ∷ "novel"
    ∷ "now" ∷ "nuclear" ∷ "number" ∷ "nurse" ∷ "nut" ∷ []

unfoldable pub words_o : List String
words_o =
    "oak" ∷ "obey" ∷ "object" ∷ "oblige" ∷ "obscure" ∷ "observe" ∷ "obtain" ∷ "obvious" ∷ "occur"
    ∷ "ocean" ∷ "october" ∷ "odor" ∷ "off" ∷ "offer" ∷ "office" ∷ "often" ∷ "oil" ∷ "okay" ∷ "old"
    ∷ "olive" ∷ "olympic" ∷ "omit" ∷ "once" ∷ "one" ∷ "onion" ∷ "online" ∷ "only" ∷ "open" ∷ "opera"
    ∷ "opinion" ∷ "oppose" ∷ "option" ∷ "orange" ∷ "orbit" ∷ "orchard" ∷ "order" ∷ "ordinary"
    ∷ "organ" ∷ "orient" ∷ "original" ∷ "orphan" ∷ "ostrich" ∷ "other" ∷ "outdoor" ∷ "outer"
    ∷ "output" ∷ "outside" ∷ "oval" ∷ "oven" ∷ "over" ∷ "own" ∷ "owner" ∷ "oxygen" ∷ "oyster"
    ∷ "ozone" ∷ []

unfoldable pub words_p : List String
words_p =
    "pact" ∷ "paddle" ∷ "page" ∷ "pair" ∷ "palace" ∷ "palm" ∷ "panda" ∷ "panel" ∷ "panic"
    ∷ "panther" ∷ "paper" ∷ "parade" ∷ "parent" ∷ "park" ∷ "parrot" ∷ "party" ∷ "pass" ∷ "patch"
    ∷ "path" ∷ "patient" ∷ "patrol" ∷ "pattern" ∷ "pause" ∷ "pave" ∷ "payment" ∷ "peace" ∷ "peanut"
    ∷ "pear" ∷ "peasant" ∷ "pelican" ∷ "pen" ∷ "penalty" ∷ "pencil" ∷ "people" ∷ "pepper"
    ∷ "perfect" ∷ "permit" ∷ "person" ∷ "pet" ∷ "phone" ∷ "photo" ∷ "phrase" ∷ "physical" ∷ "piano"
    ∷ "picnic" ∷ "picture" ∷ "piece" ∷ "pig" ∷ "pigeon" ∷ "pill" ∷ "pilot" ∷ "pink" ∷ "pioneer"
    ∷ "pipe" ∷ "pistol" ∷ "pitch" ∷ "pizza" ∷ "place" ∷ "planet" ∷ "plastic" ∷ "plate" ∷ "play"
    ∷ "please" ∷ "pledge" ∷ "pluck" ∷ "plug" ∷ "plunge" ∷ "poem" ∷ "poet" ∷ "point" ∷ "polar"
    ∷ "pole" ∷ "police" ∷ "pond" ∷ "pony" ∷ "pool" ∷ "popular" ∷ "portion" ∷ "position" ∷ "possible"
    ∷ "post" ∷ "potato" ∷ "pottery" ∷ "poverty" ∷ "powder" ∷ "power" ∷ "practice" ∷ "praise"
    ∷ "predict" ∷ "prefer" ∷ "prepare" ∷ "present" ∷ "pretty" ∷ "prevent" ∷ "price" ∷ "pride"
    ∷ "primary" ∷ "print" ∷ "priority" ∷ "prison" ∷ "private" ∷ "prize" ∷ "problem" ∷ "process"
    ∷ "produce" ∷ "profit" ∷ "program" ∷ "project" ∷ "promote" ∷ "proof" ∷ "property" ∷ "prosper"
    ∷ "protect" ∷ "proud" ∷ "provide" ∷ "public" ∷ "pudding" ∷ "pull" ∷ "pulp" ∷ "pulse" ∷ "pumpkin"
    ∷ "punch" ∷ "pupil" ∷ "puppy" ∷ "purchase" ∷ "purity" ∷ "purpose" ∷ "purse" ∷ "push" ∷ "put"
    ∷ "puzzle" ∷ "pyramid" ∷ []
