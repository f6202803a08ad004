-- ===== src/Helm/Hermetic.antt =====
-- bundle/helm/v1/internal/hermetic/hermetic.go: the template functions that a chart may use. The names
-- of sprig's functions are an argument.
use library_olm.Prelude.{String, Bool, List, [], ◌∷◌, not, keep, contains}

abbrev pub allowed : List String
allowed =
    "hello" ∷ "duration" ∷ "must_date_modify" ∷ "mustDateModify" ∷ "mustToDate" ∷ "toDate"
    ∷ "unixEpoch" ∷ "abbrev" ∷ "abbrevboth" ∷ "trunc" ∷ "trim" ∷ "upper" ∷ "lower" ∷ "title"
    ∷ "untitle" ∷ "substr" ∷ "repeat" ∷ "trimall" ∷ "trimAll" ∷ "trimSuffix" ∷ "trimPrefix"
    ∷ "nospace" ∷ "initials" ∷ "swapcase" ∷ "snakecase" ∷ "camelcase" ∷ "kebabcase" ∷ "wrap"
    ∷ "wrapWith" ∷ "contains" ∷ "hasPrefix" ∷ "hasSuffix" ∷ "quote" ∷ "squote" ∷ "cat" ∷ "indent"
    ∷ "nindent" ∷ "replace" ∷ "plural" ∷ "sha1sum" ∷ "sha256sum" ∷ "sha512sum" ∷ "adler32sum"
    ∷ "toString" ∷ "atoi" ∷ "int64" ∷ "int" ∷ "float64" ∷ "seq" ∷ "toDecimal" ∷ "split"
    ∷ "splitList" ∷ "splitn" ∷ "toStrings" ∷ "until" ∷ "untilStep" ∷ "add1" ∷ "add" ∷ "sub" ∷ "div"
    ∷ "mod" ∷ "mul" ∷ "add1f" ∷ "addf" ∷ "subf" ∷ "divf" ∷ "mulf" ∷ "biggest" ∷ "max" ∷ "min"
    ∷ "maxf" ∷ "minf" ∷ "ceil" ∷ "floor" ∷ "round" ∷ "join" ∷ "sortAlpha" ∷ "default" ∷ "empty"
    ∷ "coalesce" ∷ "all" ∷ "any" ∷ "compact" ∷ "mustCompact" ∷ "fromJson" ∷ "toJson"
    ∷ "toPrettyJson" ∷ "toRawJson" ∷ "mustFromJson" ∷ "mustToJson" ∷ "mustToPrettyJson"
    ∷ "mustToRawJson" ∷ "ternary" ∷ "deepCopy" ∷ "mustDeepCopy" ∷ "typeOf" ∷ "typeIs" ∷ "typeIsLike"
    ∷ "kindOf" ∷ "kindIs" ∷ "deepEqual" ∷ "base" ∷ "dir" ∷ "clean" ∷ "ext" ∷ "isAbs" ∷ "osBase"
    ∷ "osClean" ∷ "osDir" ∷ "osExt" ∷ "osIsAbs" ∷ "b64enc" ∷ "b64dec" ∷ "b32enc" ∷ "b32dec"
    ∷ "tuple" ∷ "list" ∷ "dict" ∷ "get" ∷ "set" ∷ "unset" ∷ "hasKey" ∷ "pluck" ∷ "pick" ∷ "omit"
    ∷ "merge" ∷ "mergeOverwrite" ∷ "mustMerge" ∷ "mustMergeOverwrite" ∷ "append" ∷ "push"
    ∷ "mustAppend" ∷ "mustPush" ∷ "prepend" ∷ "mustPrepend" ∷ "first" ∷ "mustFirst" ∷ "rest"
    ∷ "mustRest" ∷ "last" ∷ "mustLast" ∷ "initial" ∷ "mustInitial" ∷ "reverse" ∷ "mustReverse"
    ∷ "uniq" ∷ "mustUniq" ∷ "without" ∷ "mustWithout" ∷ "has" ∷ "mustHas" ∷ "slice" ∷ "mustSlice"
    ∷ "concat" ∷ "dig" ∷ "chunk" ∷ "mustChunk" ∷ "derivePassword" ∷ "buildCustomCert" ∷ "decryptAES"
    ∷ "semver" ∷ "semverCompare" ∷ "fail" ∷ "regexMatch" ∷ "mustRegexMatch" ∷ "regexFindAll"
    ∷ "mustRegexFindAll" ∷ "regexFind" ∷ "mustRegexFind" ∷ "regexReplaceAll" ∷ "mustRegexReplaceAll"
    ∷ "regexReplaceAllLiteral" ∷ "mustRegexReplaceAllLiteral" ∷ "regexSplit" ∷ "mustRegexSplit"
    ∷ "regexQuoteMeta" ∷ "urlParse" ∷ "urlJoin" ∷ []

-- `isAllowed`
unfoldable pub is_allowed : String → Bool
unfolding contains
is_allowed name = contains allowed name

-- `Overrides`: the names whose functions are replaced by one that fails.
unfoldable pub overrides : List String → List String
unfolding keep is_allowed
overrides sprig_functions = "lookup" ∷ keep (λ name. not (is_allowed name)) sprig_functions
