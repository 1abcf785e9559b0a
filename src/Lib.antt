-- ===== src/Lib.antt =====
-- A verification library of inflection, the C++ library that inflects words and phrases and puts
-- them together to sentences (src/inflection from the repository's root; every path below starts
-- there).
--
-- The parts of the program and how they interact. The dictionary is a set of containers, which are
-- built off line, written to a file and mapped into memory: arrays of numbers packed into bits
-- (dictionary/metadata/CompressedArray.hpp), strings with their numbers
-- (dictionary/metadata/StringArrayContainer.cpp, and tries of the marisa library). The dialog classes
-- are what a client uses: a concept (dialog/SemanticConcept.cpp, over
-- dialog/SemanticFeatureConceptBase.cpp) has display values (dialog/DisplayValue.cpp) and shows the one
-- that fits its constraints as a text that is printed and one that is spoken
-- (dialog/SpeakableString.cpp); a list (dialog/SemanticConceptList.cpp) joins the texts of its concepts.
-- grammar/synthesis/GrammarSynthesizerUtil.cpp is what the grammars of the languages choose display
-- values with and put inflected words back into a phrase with.
-- A pronoun (dialog/PronounConcept.cpp) is a concept that is shown as an entry of a table; the entry may
-- depend on the sound of the concept that it refers to (dictionary/PhraseProperties.cpp). The inflector
-- (dictionary/Inflector_*.cpp) knows the patterns after which words are inflected, and goes from one form
-- of a word to another; dialog/DictionaryLookupInflector.cpp, over analysis/MorphologicalAnalyzer.cpp,
-- chooses what a word may be an inflection of. util/StringViewUtils.cpp, util/StringUtils.cpp and
-- util/DelimitedStringIterator.cpp take strings apart for all of them.
--
-- The files.
--   Prelude, with Prelude/Lists, Tests, Outcomes, Bits, Strings and Choice: shared names, lists indexed
--   by native numbers, the results of a C++ call (a value, an exception, undefined behaviour), binary
--   digits, UTF-16 strings as lists of code units, and loops that look for the best of several values.
--   Metadata/CompressedArray: dictionary/metadata/CompressedArray.hpp with a 64-bit T. The words are a
--   list of numbers below 2 ^ 64; read, write, of_vector (the constructor from a vector) and
--   calculate_bit_width are the functions of that name. Below it Layout and Slots describe the bits of
--   a value, RoundTrip, Build, Bounds and Width hold the theorems.
--   Metadata/StringArrayContainer: dictionary/metadata/StringArrayContainer.cpp. build is the
--   constructor from a set, search the loop of getIdentifierIfAvailable. Below it Entries (an offset
--   and a length in one number), Order (the order of the strings), Build and Search.
--   Util/StringViewUtils and Util/DelimitedStringIterator: the files of that name in util.
--   Util/CodePoints: appendCodePoint and reverse of util/StringUtils.cpp, codePointAt of
--   util/StringViewUtils.cpp, and util/UnicodeSetUtils.cpp. Below it Swaps and Reverse.
--   Dialog/SpeakableString, DisplayValue, Constraints (SemanticFeatureConceptBase), Concept
--   (SemanticConcept) and ConceptList (SemanticConceptList): the classes of dialog. A class is a
--   record, a virtual function that another class implements is a field of a record that is an
--   argument, and a pointer that may be null is an option.
--   Dictionary/MetaData: dictionary/DictionaryMetaData.cpp and the functions of
--   dictionary/DictionaryMetaData_MMappedDictionary.cpp on the bits of properties; the record Source is
--   what is read from the tries. Below it Properties holds the theorems.
--   Dictionary/Inflector: dictionary/Inflector_MMappedDictionary.cpp, Inflector_InflectionPattern.cpp and
--   Inflector_Inflection.cpp. A pattern and its inflections are read from rows of a CompressedArray; Rows
--   has them as a list, and the loops of the code as loops over it. Packing says what is read from a
--   row, Surface is inflectionsForSurfaceForm and Reinflect is reinflectImplementation.
--   Dictionary/PropertyMaps: the maps of properties and values of words in
--   dictionary/DictionaryMetaData_MMappedDictionary.cpp, and what finds the patterns of a word with them in
--   Inflector_MMappedDictionary.cpp and Inflector.cpp. Layout says which rows hold a map, as an
--   association list; Refinement is about the search.
--   Analysis/MorphologicalAnalyzer: analysis/MorphologicalAnalyzer.cpp, and getWordGrammemeSets of
--   analysis/DictionaryExposableMorphology.cpp. Analysis/InflectionOrder and
--   Analysis/DictionaryLookupInflector: dialog/DictionaryLookupInflector.cpp, its comparison and its
--   inflection of words. std::stable_sort is an insertion sort. Below them Comparisons, Ordering,
--   Selection and Exemplar.
--   Dictionary/PhraseProperties: dictionary/PhraseProperties.cpp, with the sets of code points as
--   arguments. Below it Usable and Known.
--   Dialog/PronounConcept: dialog/PronounConcept.cpp. Selection is getFirstPossibleValue and what is read
--   from the entry, Initial the constructor from a pronoun; Choice, Agreement and Initial/Result hold the
--   theorems.
--   Grammar/SynthesizerUtil: grammar/synthesis/GrammarSynthesizerUtil.cpp. A token chain is the list of
--   its tokens; what the dictionary knows of a word is an argument of split_prefix. Below it Choice,
--   Words and Prefix.
--   Each Tests file runs the code on examples and applies the theorems to them.
--
-- Integers and bounds. Sizes are native numbers; where the code uses int32_t, an index whose bits do
-- not fit one is undefined in CompressedArray, and the test on the offset in StringArrayContainer is
-- modelled with its wrap-around. The rows of the inflector are those of such an array, so that sums of
-- their indexes are taken without a bound. An access outside an array is undefined, an exception is a
-- value.
--
-- Fuel. The loops that a search in a string drives (split, replace and a loop over the iterator) take
-- one or two units more than the string is long, and the binary search one more than the array: the
-- theorems about them say that a result comes out. calculateBitWidth shifts a 64-bit number and takes
-- 64 rounds.
--
-- Not modelled. Files and memory mapping, the marisa tries (what is read from them is an argument),
-- ICU (case mappings, UTF-8, sets of code points), the grammars of the single languages and the
-- tokenizer.
-- Features are told apart by their names, as in dialog/SemanticFeature.cpp; what a model's functions
-- return is an argument.
pub mod Prelude
pub mod Metadata
pub mod Dialog
pub mod Dictionary
pub mod Grammar
pub mod Util
pub mod Analysis
